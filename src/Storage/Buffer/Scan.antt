-- ===== src/Storage/Buffer/Scan.antt =====
-- storage/buffer_pool.cpp: the intervals of words that log_page_diff finds.
use my_simple_db.Prelude.{
  ℕ, zero, suc, ◌+◌, ◌<◌, ◌≤◌, ◌≡◌, refl, sym, ◌∙◌, Bool, true, false, ◌&&◌, ◌||◌, List, [], ◌∷◌,
  ltb, leb, ◌==◌, if◌then◌else◌, arith, inl, inr, Bool-cases, subst, length,
}
use mathlib.Core.Bool.{false≢true}
use my_simple_db.Storage.Buffer.{PageFrame}
use my_simple_db.Storage.Buffer.Diff.{words, word_differs, grow, Logging, log_interval, diff_loop}

-- The intervals that the outer loop logs, from a word on.
unfoldable pub intervals : ℕ → PageFrame → ℕ → List (ℕ × ℕ)
intervals zero f w = []
intervals (suc fuel) f w =
    let g = grow words f (w + 1) (w + 1) in
    let differs = word_differs f w in
    let rest = intervals fuel f (if differs then g.1 else w + 1) in
    if ltb w words then (if differs then (w, g.0) ∷ rest else rest) else []

unfoldable pub log_intervals : PageFrame → List (ℕ × ℕ) → Logging → Logging
log_intervals f [] s = s
log_intervals f (r ∷ rs) s = log_intervals f rs (log_interval f r.0 r.1 s)

pub diff_loop_lem :
    (fuel : ℕ) (f : PageFrame) (w : ℕ) (s : Logging)
    → diff_loop fuel f w s ≡ log_intervals f (intervals fuel f w) s
unfolding diff_loop intervals log_intervals
diff_loop_lem zero f w s = refl
diff_loop_lem (suc fuel) f w s = elim (Bool-cases (ltb w words)) [
  | inl more ↦ elim (Bool-cases (word_differs f w)) [
    | inl differs ↦ rw (more, differs) (diff_loop_lem fuel f _ _)
    | inr same ↦ rw (more, same) (diff_loop_lem fuel f (w + 1) s)
  ]
  | inr done ↦ rw done refl
]

-- What the inner loop gives: an end in the page, not below the start, and past each word that
-- differs and was seen.
record Grown (f : PageFrame) (w hi : ℕ) (g : ℕ × ℕ) : Type 0 where
  above : hi ≤ g.0
  inside : hi ≤ words → g.0 ≤ words
  onward : w ≤ g.1
  ordered : g.0 ≤ g.1
  seen : (i : ℕ) → w ≤ i → i < g.1 → word_differs f i ≡ true → i < g.0

next_hi : (b : Bool) (w hi : ℕ) → hi ≤ w → hi ≤ (if b then w + 1 else hi)
next_hi true w hi h = omega (arith, h)
next_hi false w hi h = omega arith

next_hi_bound : (b : Bool) (w hi : ℕ) → hi ≤ w → (if b then w + 1 else hi) ≤ w + 1
next_hi_bound true w hi h = omega arith
next_hi_bound false w hi h = omega (arith, h)

next_hi_inside : (b : Bool) (w hi : ℕ) → w < words → hi ≤ words → (if b then w + 1 else hi) ≤ words
next_hi_inside true w hi a h = omega (arith, a)
next_hi_inside false w hi a h = h

next_hi_seen : (b : Bool) (w hi : ℕ) → b ≡ true → w < (if b then w + 1 else hi)
next_hi_seen true w hi e = omega arith
next_hi_seen false w hi e = cc

grow_lem : (fuel : ℕ) (f : PageFrame) (w hi : ℕ) → hi ≤ w → Grown f w hi (grow fuel f w hi)
unfolding grow
grow_lem zero f w hi low = record {
  above = omega arith;
  inside = λ h. h;
  onward = omega arith;
  ordered = low;
  seen = λ i a b d. absurd (omega (arith, a, b));
}
grow_lem (suc fuel) f w hi low = elim (Bool-cases (ltb w words && leb w hi)) [
  | inl more ↦
      let b = word_differs f w in
      let next = if b then w + 1 else hi in
      let g = grow_lem fuel f (w + 1) next (next_hi_bound b w hi low) in
      let small : w < words = ground (arith, more) in
      rw more record {
        above = omega (arith, next_hi b w hi low, g.above);
        inside = λ h. g.inside (next_hi_inside b w hi small h);
        onward = omega (arith, g.onward);
        ordered = g.ordered;
        seen = λ i a c d. elim (Bool-cases (i == w)) [
          | inl here ↦
              let e : i ≡ w = ground (arith, here) in
              omega
                (arith, e, g.above, next_hi_seen b w hi (subst (λ k. word_differs f k ≡ true) e d))
          | inr later ↦ g.seen i (ground (arith, later, a)) c d
        ];
      }
  | inr done ↦ rw done record {
    above = omega arith;
    inside = λ h. h;
    onward = omega arith;
    ordered = low;
    seen = λ i a b d. absurd (omega (arith, a, b));
  }
]

abbrev pub in_interval : ℕ × ℕ → ℕ → Bool
in_interval r i = leb r.0 i && ltb i r.1

unfoldable pub in_intervals : List (ℕ × ℕ) → ℕ → Bool
in_intervals [] i = false
in_intervals (r ∷ rs) i = in_interval r i || in_intervals rs i

-- Intervals that are not empty, lie in the page from a word on, and come one after the other.
abbrev pub AreIntervals : ℕ → List (ℕ × ℕ) → Type 0
AreIntervals w [] = Unit
AreIntervals w (r ∷ rs) = (w ≤ r.0) × (r.0 < r.1) × (r.1 ≤ words) × AreIntervals r.1 rs

earlier_start : (v w : ℕ) (rs : List (ℕ × ℕ)) → v ≤ w → AreIntervals w rs → AreIntervals v rs
earlier_start v w [] h rest = tt
earlier_start v w (r ∷ rs) h rest = (omega (arith, h, rest.0), rest.1, rest.2, rest.3)

pub intervals-AreIntervals :
    (fuel : ℕ) (f : PageFrame) (w : ℕ) → AreIntervals w (intervals fuel f w)
unfolding intervals
intervals-AreIntervals zero f w = tt
intervals-AreIntervals (suc fuel) f w = elim (Bool-cases (ltb w words)) [
  | inl more ↦ elim (Bool-cases (word_differs f w)) [
    | inl differs ↦
        let g = grow_lem words f (w + 1) (w + 1) (omega arith) in
        rw (more, differs)
          (
            omega arith,
            omega (arith, g.above),
            g.inside (ground (arith, more)),
            earlier_start _ _ _ g.ordered (intervals-AreIntervals fuel f _),
          )
    | inr same ↦
        rw (more, same)
          (earlier_start w (w + 1) _ (omega arith) (intervals-AreIntervals fuel f (w + 1)))
  ]
  | inr done ↦ rw done tt
]

pub length-intervals : (fuel : ℕ) (f : PageFrame) (w : ℕ) → length (intervals fuel f w) ≤ fuel
unfolding intervals
length-intervals zero f w = omega arith
length-intervals (suc fuel) f w = elim (Bool-cases (ltb w words)) [
  | inl more ↦ elim (Bool-cases (word_differs f w)) [
    | inl differs ↦
        rw (more, differs) (omega (arith, length-intervals fuel f (grow words f (w + 1) (w + 1)).1))
    | inr same ↦ rw (more, same) (omega (arith, length-intervals fuel f (w + 1)))
  ]
  | inr done ↦ rw done (omega arith)
]

-- What is before them lies in none.
pub in_intervals_below :
    (w : ℕ) (rs : List (ℕ × ℕ)) (i : ℕ) → AreIntervals w rs → i < w → in_intervals rs i ≡ false
unfolding in_intervals
in_intervals_below w [] i h low = refl
in_intervals_below w (r ∷ rs) i h low =
    let here : in_interval r i ≡ false = ground (arith, h.0, low) in
    rw here (in_intervals_below r.1 rs i h.3 (omega (arith, h.0, h.1, low)))

found : (a b : Bool) → a ≡ true → (a || b) ≡ true
found true b h = refl
found false b h = cc

left_over : (a b : Bool) → b ≡ true → (a || b) ≡ true
left_over true b h = refl
left_over false b h = h

not_here :
    (f : PageFrame) (w i : ℕ)
    → w ≤ i
    → word_differs f w ≡ false
    → word_differs f i ≡ true
    → w + 1 ≤ i
not_here f w i a same d = elim (Bool-cases (i == w)) [
  | inl here ↦
      let e : i ≡ w = ground (arith, here) in
      absurd (false≢true (sym same ∙ subst (λ k. word_differs f k ≡ true) e d))
  | inr later ↦ ground (arith, later, a)
]

in_first :
    (f : PageFrame) (w i : ℕ) (g : ℕ × ℕ)
    → Grown f (w + 1) (w + 1) g
    → w ≤ i
    → i < g.1
    → word_differs f i ≡ true
    → in_interval (w, g.0) i ≡ true
in_first f w i g grown a here d = elim (Bool-cases (i == w)) [
  | inl e ↦ ground (arith, e, grown.above)
  | inr later ↦ ground (arith, a, grown.seen i (ground (arith, later, a)) here d)
]

-- With fuel for the words that are left, each word that differs lies in an interval.
pub in_intervals-intervals :
    (fuel : ℕ) (f : PageFrame) (w i : ℕ)
    → words ≤ w + fuel
    → w ≤ i
    → i < words
    → word_differs f i ≡ true
    → in_intervals (intervals fuel f w) i ≡ true
unfolding intervals in_intervals
in_intervals-intervals zero f w i enough a b d = absurd (omega (arith, enough, a, b))
in_intervals-intervals (suc fuel) f w i enough a b d =
    let more : ltb w words ≡ true = ground (arith, a, b) in
    elim (Bool-cases (word_differs f w)) [
      | inl differs ↦
          let g = grow_lem words f (w + 1) (w + 1) (omega arith) in
          let end = grow words f (w + 1) (w + 1) in
          elim (Bool-cases (ltb i end.1)) [
            | inl here ↦
                rw (more, differs)
                  (found (in_interval (w, end.0) i) _
                    (in_first f w i end g a (ground (arith, here)) d))
            | inr later ↦
                rw (more, differs)
                  (left_over (in_interval (w, end.0) i) _ (
                    in_intervals-intervals fuel f end.1 i (omega (arith, enough, g.onward))
                      (ground (arith, later)) b d))
          ]
      | inr same ↦
          rw (more, same)
            (in_intervals-intervals fuel f (w + 1) i (omega (arith, enough))
              (not_here f w i a same d) b d)
    ]
