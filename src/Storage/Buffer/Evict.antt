-- ===== src/Storage/Buffer/Evict.antt =====
-- storage/buffer_pool.cpp: which frame the clock of evict finds.
use my_simple_db.Prelude.{
  ℕ, zero, suc, ◌+◌, ◌-◌, ◌*◌, ◌%◌, ◌<◌, ◌≡◌, ◌≢◌, refl, sym, ap, ap₂, ◌∙◌, subst, Bool, true,
  false, not, ◌&&◌, ◌||◌, List, [], ◌∷◌, ltb, leb, ◌==◌, if◌then◌else◌, length, get_or, set, arith,
  inl, inr, Bool-cases, length-set, ==_iff,
}
use native.Mathlib.Nat.{mod-lt, mod-eq_of_lt, mod-eq-sub-mod, mod-add-mod}
use my_simple_db.Common.{ErrCode, ok, err}
use my_simple_db.Storage.Files.{Files, write_page}
use my_simple_db.Storage.Buffer.{
  PageFrame, empty_frame, BufferPool, frame_at, same_bytes, write_back, take_victim, after_victim,
  clear_ref, has_chance, evict_loop, evict,
}

pub get_or-set_self {ℓ} :
    {A : Type ℓ} (xs : List A) (i : ℕ) (v d : A) → i < length xs → get_or (set xs i v) i d ≡ v
get_or-set_self [] i v d h = absurd (omega (arith, h))
get_or-set_self (x ∷ xs) zero v d h = refl
get_or-set_self (x ∷ xs) (suc i) v d h = get_or-set_self xs i v d (omega (arith, h))

pub get_or-set_ne {ℓ} :
    {A : Type ℓ} (xs : List A) (i j : ℕ) (v d : A) → i ≢ j → get_or (set xs i v) j d ≡ get_or xs j d
get_or-set_ne [] i j v d h = refl
get_or-set_ne (x ∷ xs) zero zero v d h = absurd (h refl)
get_or-set_ne (x ∷ xs) zero (suc j) v d h = refl
get_or-set_ne (x ∷ xs) (suc i) zero v d h = refl
get_or-set_ne (x ∷ xs) (suc i) (suc j) v d h = get_or-set_ne xs i j v d (λ e. h (ap suc e))

-- A frame has no change that is not in the log, or is not written back.
abbrev pub IsLoggedFrame : PageFrame → Type 0
IsLoggedFrame f = (f.valid && f.dirty) ≡ true → same_bytes f.before f.bytes ≡ true

pub write_back-ok :
    (f : PageFrame) (fs : Files)
    → IsLoggedFrame f
    → (g : PageFrame) × (fs' : Files) × (write_back f fs ≡ ok (g, fs'))
unfolding write_back
write_back-ok f fs logged = elim (Bool-cases (f.valid && f.dirty)) [
  | inl due ↦ (
    record f { dirty = false },
    write_page f.page.file_id f.page.page_no f.bytes fs,
    rw (both f.valid f.dirty due, logged due) refl,
  )
  | inr clean ↦ (f, fs, rw (neither f.valid f.dirty clean) refl)
]
  where
    both : (a b : Bool) → (a && b) ≡ true → (not a || not b) ≡ false
    both a b e = ground (arith, e)

    neither : (a b : Bool) → (a && b) ≡ false → (not a || not b) ≡ true
    neither a b e = ground (arith, e)

-- Two pools with the same clock, the same pins, and frames that are logged alike.
record Alike (p q : BufferPool) : Type 0 where
  size : length q.frames ≡ length p.frames
  hand : q.clock_hand ≡ p.clock_hand
  pins : (m : ℕ) → (frame_at q m).pin ≡ (frame_at p m).pin
  logged : (m : ℕ) → IsLoggedFrame (frame_at p m) → IsLoggedFrame (frame_at q m)
  chances : (m : ℕ) → has_chance (frame_at p m) ≡ false → has_chance (frame_at q m) ≡ false

unchanged : (p : BufferPool) → Alike p p
unchanged p = record {
  size = refl;
  hand = refl;
  pins = λ m. refl;
  logged = λ m h. h;
  chances = λ m h. h;
}

clear_ref_at :
    (p : BufferPool) (idx : ℕ)
    → idx < length p.frames
    → frame_at (clear_ref idx p) idx ≡ record (frame_at p idx) { ref = false }
clear_ref_at p idx h = get_or-set_self p.frames idx _ empty_frame h

clear_ref_ne : (p : BufferPool) (idx m : ℕ) → idx ≢ m → frame_at (clear_ref idx p) m ≡ frame_at p m
clear_ref_ne p idx m h = get_or-set_ne p.frames idx m _ empty_frame h

no_chance : (b : Bool) → (b && false) ≡ false
no_chance true = refl
no_chance false = refl

clear_ref-Alike : (p : BufferPool) (idx : ℕ) → idx < length p.frames → Alike p (clear_ref idx p)
clear_ref-Alike p idx h =
    let here = clear_ref_at p idx h in
    record {
      size = length-set p.frames idx _;
      hand = refl;
      pins = λ m. elim (Bool-cases (idx == m)) [
        | inl e ↦
            at_place (λ f. f.pin ≡ (frame_at p m).pin) m e
              (λ same. ap (λ k. (frame_at p k).pin) same)
        | inr e ↦ ap (λ (f : PageFrame). f.pin) (clear_ref_ne p idx m (differ m e))
      ];
      logged = λ m l. elim (Bool-cases (idx == m)) [
        | inl e ↦
            at_place IsLoggedFrame m e
              (λ same. subst (λ k. IsLoggedFrame (frame_at p k)) (sym same) l)
        | inr e ↦ subst IsLoggedFrame (sym (clear_ref_ne p idx m (differ m e))) l
      ];
      chances = λ m l. elim (Bool-cases (idx == m)) [
        | inl e ↦
            at_place (λ f. has_chance f ≡ false) m e (λ same. no_chance (frame_at p idx).valid)
        | inr e ↦ subst (λ f. has_chance f ≡ false) (sym (clear_ref_ne p idx m (differ m e))) l
      ];
    }
  where
    differ : (m : ℕ) → (idx == m) ≡ false → idx ≢ m
    differ m e same = absurd (ground (arith, e, same))

    at_place :
        (P : PageFrame → Type 0) (m : ℕ)
        → (idx == m) ≡ true
        → (idx ≡ m → P (record (frame_at p idx) { ref = false }))
        → P (frame_at (clear_ref idx p) m)
    at_place P m e f =
        let same : idx ≡ m = (==_iff idx m).0 e in
        subst (λ k. P (frame_at (clear_ref idx p) k)) same
          (subst P (sym (clear_ref_at p idx h)) (f same))

-- The loop gives a frame that no one has pinned.
abbrev Finds : ℕ → ℕ → BufferPool → Files → Type 0
Finds k i p fs =
    (idx : ℕ) × (r : BufferPool × Files) × (evict_loop k i p fs ≡ ok (idx, r))
    × (idx < length p.frames)
    × ((frame_at p idx).pin ≡ 0)

abbrev pub AllLoggedFrames : BufferPool → Type 0
AllLoggedFrames p = (m : ℕ) → IsLoggedFrame (frame_at p m)

abbrev place : BufferPool → ℕ → ℕ
place p i = (p.clock_hand + i) % length p.frames

abbrev pinned_at : BufferPool → ℕ → Bool
pinned_at p i = ltb 0 (frame_at p (place p i)).pin

-- The frame of a round is passed over, and the pool that the next round gets.
abbrev passes : BufferPool → ℕ → Bool
passes p i = pinned_at p i || has_chance (frame_at p (place p i))

abbrev passed : BufferPool → ℕ → BufferPool
passed p i = if pinned_at p i then p else clear_ref (place p i) p

passed-Alike : (p : BufferPool) (i : ℕ) → 0 < length p.frames → Alike p (passed p i)
passed-Alike p i h = elim (Bool-cases (pinned_at p i)) [
  | inl pinned ↦ rw pinned (unchanged p)
  | inr free ↦ rw free (clear_ref-Alike p (place p i) (mod-lt (p.clock_hand + i) h))
]

next_round :
    (k i : ℕ) (p : BufferPool) (fs : Files)
    → 0 < length p.frames
    → passes p i ≡ true
    → Finds k (i + 1) (passed p i) fs
    → Finds (suc k) i p fs
unfolding evict_loop
next_round k i p fs h over found =
    let alike = passed-Alike p i h in
    (
      found.0,
      found.1,
      rw over found.2,
      subst (λ n. found.0 < n) alike.size found.3,
      sym (alike.pins found.0) ∙ found.4,
    )

take_victim-ok :
    (idx : ℕ) (p : BufferPool) (fs : Files)
    → IsLoggedFrame (frame_at p idx)
    → (r : BufferPool × Files) × (take_victim idx p fs ≡ ok (idx, r))
unfolding take_victim
take_victim-ok idx p fs logged =
    let w = write_back-ok (frame_at p idx) fs logged in (after_victim idx p (w.0, w.1), rw w.2 refl)

this_round :
    (k i : ℕ) (p : BufferPool) (fs : Files)
    → 0 < length p.frames
    → AllLoggedFrames p
    → passes p i ≡ false
    → Finds (suc k) i p fs
unfolding evict_loop
this_round k i p fs h logged stop =
    let r = take_victim-ok (place p i) p fs (logged (place p i)) in
    (
      place p i,
      r.0,
      rw stop r.1,
      mod-lt (p.clock_hand + i) h,
      no_pin _ (has_chance (frame_at p (place p i))) stop,
    )
  where
    no_pin : (n : ℕ) (b : Bool) → (ltb 0 n || b) ≡ false → n ≡ 0
    no_pin n b e = ground (arith, e)

same_place : (p q : BufferPool) → Alike p q → (i : ℕ) → place q i ≡ place p i
same_place p q a i = ap₂ (λ hand n. (hand + i) % n) a.hand a.size

full_turn : (p : BufferPool) (i : ℕ) → place p (i + length p.frames) ≡ place p i
full_turn p i =
    let n = length p.frames in
    let back : p.clock_hand + (i + n) - n ≡ p.clock_hand + i = omega arith in
    mod-eq-sub-mod {n = p.clock_hand + (i + n)} {m = n} (omega arith) ∙ ap (λ m. m % n) back

-- The frame that a round passes over, where it is not pinned, has no second chance after it.
chance_lost :
    (p : BufferPool) (i j : ℕ)
    → 0 < length p.frames
    → place p i ≡ j
    → (frame_at p j).pin ≡ 0
    → has_chance (frame_at (passed p i) (place p i)) ≡ false
chance_lost p i j h here free =
    let loose : pinned_at p i ≡ false = none_pinned _ (ap (λ m. (frame_at p m).pin) here ∙ free) in
    rw loose
      (ap has_chance (clear_ref_at p (place p i) (mod-lt (p.clock_hand + i) h)) ∙ no_chance _)
  where
    none_pinned : (n : ℕ) → n ≡ 0 → ltb 0 n ≡ false
    none_pinned n e = ground (arith, e)

-- A frame without a pin and without a second chance is reached.
reached :
    (k i d j : ℕ) (p : BufferPool) (fs : Files)
    → 0 < length p.frames
    → AllLoggedFrames p
    → d < k
    → place p (i + d) ≡ j
    → (frame_at p j).pin ≡ 0
    → has_chance (frame_at p j) ≡ false
    → Finds k i p fs
reached zero i d j p fs h logged early at free last = absurd (omega (arith, early))
reached (suc k) i zero j p fs h logged early at free last =
    let here : place p i ≡ j = ap (λ n. place p n) (omega arith) ∙ at in
    this_round k i p fs h logged (
      subst (λ m. (ltb 0 (frame_at p m).pin || has_chance (frame_at p m)) ≡ false) (sym here)
        (stops _ _ free last))
  where
    stops : (n : ℕ) (b : Bool) → n ≡ 0 → b ≡ false → (ltb 0 n || b) ≡ false
    stops n b e g = ground (arith, e, g)
reached (suc k) i (suc d) j p fs h logged early at free last = elim (Bool-cases (passes p i)) [
  | inr stop ↦ this_round k i p fs h logged stop
  | inl over ↦
      let a = passed-Alike p i h in
      next_round k i p fs h over (
        reached k (i + 1) d j (passed p i) fs (subst (λ n. 0 < n) (sym a.size) h)
          (λ m. a.logged m (logged m)) (omega (arith, early))
          (same_place p (passed p i) a (i + 1 + d) ∙ (ap (λ n. place p n) (omega arith) ∙ at))
          (a.pins j ∙ free) (a.chances j last))
]

-- A frame without a pin is reached in the first round or, when it has lost its second chance, in the
-- second.
reached_twice :
    (k i d j : ℕ) (p : BufferPool) (fs : Files)
    → 0 < length p.frames
    → AllLoggedFrames p
    → d + length p.frames < k
    → place p (i + d) ≡ j
    → (frame_at p j).pin ≡ 0
    → Finds k i p fs
reached_twice zero i d j p fs h logged early at free = absurd (omega (arith, early))
reached_twice (suc k) i zero j p fs h logged early at free = elim (Bool-cases (passes p i)) [
  | inr stop ↦ this_round k i p fs h logged stop
  | inl over ↦
      let a = passed-Alike p i h in
      let here : place p i ≡ j = ap (λ n. place p n) (omega arith) ∙ at in
      next_round k i p fs h over (
        reached k (i + 1) (length p.frames - 1) j (passed p i) fs
          (subst (λ n. 0 < n) (sym a.size) h) (λ m. a.logged m (logged m)) (omega (arith, early, h))
          (same_place p (passed p i) a (i + 1 + (length p.frames - 1))
            ∙ (ap (λ n. place p n) (omega (arith, h)) ∙ (full_turn p i ∙ here)))
          (a.pins j ∙ free)
          (subst (λ m. has_chance (frame_at (passed p i) m) ≡ false) here
            (chance_lost p i j h here free)))
]
reached_twice (suc k) i (suc d) j p fs h logged early at free = elim (Bool-cases (passes p i)) [
  | inr stop ↦ this_round k i p fs h logged stop
  | inl over ↦
      let a = passed-Alike p i h in
      next_round k i p fs h over (
        reached_twice k (i + 1) d j (passed p i) fs (subst (λ n. 0 < n) (sym a.size) h)
          (λ m. a.logged m (logged m)) (omega (arith, early, a.size))
          (same_place p (passed p i) a (i + 1 + d) ∙ (ap (λ n. place p n) (omega arith) ∙ at))
          (a.pins j ∙ free))
]

-- The round in which the clock comes to a frame.
round_of :
    (p : BufferPool) (j : ℕ)
    → j < length p.frames
    → (d : ℕ) × (d < length p.frames) × (place p (0 + d) ≡ j)
round_of p j inside =
    let n = length p.frames in
    let h = p.clock_hand % n in
    let low : h < n = mod-lt p.clock_hand (omega (arith, inside)) in
    elim (Bool-cases (leb h j)) [
      | inl ahead ↦
          let sum : h + (0 + (j - h)) ≡ j = ground (arith, ahead) in
          (
            j - h,
            omega (arith, inside),
            sym (mod-add-mod p.clock_hand n (0 + (j - h)))
                ∙ (ap (λ m. m % n) sum ∙ mod-eq_of_lt inside),
          )
      | inr behind ↦
          let d = j + n - h in
          let sum : h + (0 + d) ≡ j + n = omega (arith, low) in
          let back : j + n - n ≡ j = omega arith in
          (
            d,
            ground (arith, behind, low),
            sym (mod-add-mod p.clock_hand n (0 + d))
                ∙ (ap (λ m. m % n) sum
                    ∙ (mod-eq-sub-mod {n = j + n} {m = n} (omega arith)
                        ∙ (ap (λ m. m % n) back ∙ mod-eq_of_lt inside))),
          )
    ]

-- Where one frame of the pool has no pin, and each dirty frame is logged, evict ends within its two
-- rounds with a frame that had no pin.
pub evict-ok :
    (p : BufferPool) (fs : Files) (j : ℕ)
    → j < length p.frames
    → (frame_at p j).pin ≡ 0
    → AllLoggedFrames p
    → (idx : ℕ) × (r : BufferPool × Files) × (evict p fs ≡ ok (idx, r))
      × (idx < length p.frames)
      × ((frame_at p idx).pin ≡ 0)
unfolding evict
evict-ok p fs j inside free logged =
    let d = round_of p j inside in
    reached_twice (2 * length p.frames) 0 d.0 j p fs (omega (arith, inside)) logged
      (omega (arith, d.1)) d.2 free

all_pinned_loop :
    (k i : ℕ) (p : BufferPool) (fs : Files)
    → ((m : ℕ) → m < length p.frames → 0 < (frame_at p m).pin)
    → 0 < length p.frames
    → evict_loop k i p fs ≡ err ErrCode.internal
unfolding evict_loop
all_pinned_loop zero i p fs pinned h = refl
all_pinned_loop (suc k) i p fs pinned h =
    let held : pinned_at p i ≡ true = above _ (pinned (place p i) (mod-lt (p.clock_hand + i) h)) in
    rw held (all_pinned_loop k (i + 1) p fs pinned h)
  where
    above : (n : ℕ) → 0 < n → ltb 0 n ≡ true
    above n e = ground (arith, e)

-- Where every frame of the pool is pinned, evict raises an internal error.
pub evict-all_pinned :
    (p : BufferPool) (fs : Files)
    → ((m : ℕ) → m < length p.frames → 0 < (frame_at p m).pin)
    → evict p fs ≡ err ErrCode.internal
unfolding evict evict_loop
evict-all_pinned p fs pinned = elim (Bool-cases (length p.frames == 0)) [
  | inl none_there ↦
      let e : 2 * length p.frames ≡ 0 = ground (arith, none_there) in
      ap (λ k. evict_loop k 0 p fs) e
  | inr some_there ↦ all_pinned_loop _ 0 p fs pinned (ground (arith, some_there))
]
