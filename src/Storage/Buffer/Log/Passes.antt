-- ===== src/Storage/Buffer/Log/Passes.antt =====
-- storage/recovery.cpp: what the passes of recovery make of the patches that log_page_diff wrote for
-- one transaction, committed or not.
use my_simple_db.Prelude.{
  ℕ, ◌+◌, ◌/◌, ◌<◌, ◌≤◌, ◌≡◌, refl, sym, ap, ap₂, ◌∙◌, Bool, true, false, not, ◌&&◌, ◌||◌, List, [],
  ◌∷◌, if◌then◌else◌, arith, get_or,
}
use mathlib.Core.Bool.{false≢true}
use my_simple_db.Storage.Recovery.{Collected, contains}
use my_simple_db.Storage.Recovery.Passes.{touches, touched, committed_byte}
use my_simple_db.Storage.Recovery.Sound.{Content, Honest, rewrites, rewritten, patched}
use my_simple_db.Storage.Buffer.{PageFrame}
use my_simple_db.Storage.Buffer.Diff.{words}
use my_simple_db.Storage.Buffer.Scan.{in_interval, in_intervals, AreIntervals}
use my_simple_db.Storage.Buffer.Log.{IsFrame}
use my_simple_db.Storage.Buffer.Log.Entries.{patch_of, patches}
use my_simple_db.Storage.Buffer.Log.Redo.{is_page, covers_lem, patch_byte_lem}

spread : (a b d e : Bool) → ((a && (b && d)) || (a && (b && e))) ≡ (a && (b && (d || e)))
spread a b d e = ground arith

-- A byte is written by the first patch, a later one, or none.
last_write :
    (here first later hit : Bool) (x y v : ℕ)
    → hit ≡ (here && first)
    → (first ≡ true → y ≡ x)
    → (if here && later then x else if hit then y else v)
      ≡ (if here && (first || later) then x else v)
last_write false first later hit x y v e same = rw e refl
last_write true true true hit x y v e same = refl
last_write true true false hit x y v e same = rw e (same refl)
last_write true false later hit x y v e same = rw e refl

module _ (f : PageFrame) (frame : IsFrame f) (txn : ℕ) where
  touches_patch :
      (lsn : ℕ) (g : ℕ × ℕ) (c : Collected) (q p i : ℕ)
      → g.0 < g.1
      → g.1 ≤ words
      → touches c (patch_of f lsn txn g) q p i
        ≡ (contains c.committed txn && (is_page f q p && in_interval g (i / 8)))
  touches_patch lsn g c q p i start end =
      ap (λ b. contains c.committed txn && b)
        (covers_lem f frame g start end (patch_of f lsn txn g) refl q p i)

  rewrites_patch :
      (lsn : ℕ) (g : ℕ × ℕ) (c : Collected) (q p i : ℕ)
      → g.0 < g.1
      → g.1 ≤ words
      → rewrites c (patch_of f lsn txn g) q p i ≡ (
          not (contains c.committed txn || contains c.aborted txn)
          && (is_page f q p && in_interval g (i / 8)))
  rewrites_patch lsn g c q p i start end =
      ap₂ (λ a b. a && b) (plain (contains c.committed txn) (contains c.aborted txn))
        (covers_lem f frame g start end (patch_of f lsn txn g) refl q p i)
    where
      plain : (a b : Bool) → not (a || (b || false)) ≡ not (a || b)
      plain a b = ground arith

  -- The second pass writes the new bytes of the intervals, where the transaction is committed.
  pub committed_byte-patches :
      (gs : List (ℕ × ℕ)) (lsn w : ℕ) (c : Collected) (q p i v : ℕ)
      → AreIntervals w gs
      → contains c.committed txn ≡ true
      → committed_byte c (patches f lsn txn gs) q p i v
        ≡ (if is_page f q p && in_intervals gs (i / 8) then get_or f.bytes i 0 else v)
  unfolding committed_byte patches in_intervals
  committed_byte-patches [] lsn w c q p i v h done = nothing (is_page f q p)
    where
      nothing : (b : Bool) → v ≡ (if b && false then get_or f.bytes i 0 else v)
      nothing true = refl
      nothing false = refl
  committed_byte-patches (g ∷ gs) lsn w c q p i v h done =
      let r = patch_of f lsn txn g in
      let hit =
        touches_patch lsn g c q p i h.1 h.2
        ∙ ap (λ b. b && (is_page f q p && in_interval g (i / 8))) done in
      committed_byte-patches gs (lsn + 1) g.1 c q p i _ h.3 done
      ∙ last_write (is_page f q p) (in_interval g (i / 8)) (in_intervals gs (i / 8)) _ _ _ v hit
          (patch_byte_lem f frame g h.1 h.2 r refl false i)

  pub touched-patches :
      (gs : List (ℕ × ℕ)) (lsn w : ℕ) (c : Collected) (q p i : ℕ)
      → AreIntervals w gs
      → touched c (patches f lsn txn gs) q p i
        ≡ (contains c.committed txn && (is_page f q p && in_intervals gs (i / 8)))
  unfolding touched patches in_intervals
  touched-patches [] lsn w c q p i h = nowhere (contains c.committed txn) (is_page f q p)
    where
      nowhere : (a b : Bool) → false ≡ (a && (b && false))
      nowhere a b = ground arith
  touched-patches (g ∷ gs) lsn w c q p i h =
      ap₂ (λ a b. a || b) (touches_patch lsn g c q p i h.1 h.2)
        (touched-patches gs (lsn + 1) g.1 c q p i h.3)
      ∙ spread (contains c.committed txn) (is_page f q p) (in_interval g (i / 8)) _

  pub rewritten-patches :
      (gs : List (ℕ × ℕ)) (lsn w : ℕ) (c : Collected) (q p i : ℕ)
      → AreIntervals w gs
      → rewritten c (patches f lsn txn gs) q p i ≡ (
          not (contains c.committed txn || contains c.aborted txn)
          && (is_page f q p && in_intervals gs (i / 8)))
  unfolding rewritten patches in_intervals
  rewritten-patches [] lsn w c q p i h =
      nowhere (not (contains c.committed txn || contains c.aborted txn)) (is_page f q p)
    where
      nowhere : (a b : Bool) → false ≡ (a && (b && false))
      nowhere a b = ground arith
  rewritten-patches (g ∷ gs) lsn w c q p i h =
      ap₂ (λ a b. a || b) (rewrites_patch lsn g c q p i h.1 h.2)
        (rewritten-patches gs (lsn + 1) g.1 c q p i h.3)
      ∙ spread (not (contains c.committed txn || contains c.aborted txn)) (is_page f q p)
          (in_interval g (i / 8)) _

  -- The patches hold what they replace, on a content with the old page.
  pub patches-Honest :
      (gs : List (ℕ × ℕ)) (lsn w : ℕ) (c : Collected) (content : Content)
      → AreIntervals w gs
      → ((q p i : ℕ) → is_page f q p ≡ true → w ≤ i / 8 → content q p i ≡ get_or f.before i 0)
      → Honest c content (patches f lsn txn gs)
  unfolding patches
  patches-Honest [] lsn w c content h old = tt
  patches-Honest (g ∷ gs) lsn w c content h old =
      let r = patch_of f lsn txn g in
      (
        λ q p i hit.
            let parts =
              hits (not (contains c.committed txn || contains c.aborted txn)) (is_page f q p)
                (in_interval g (i / 8)) (sym (rewrites_patch lsn g c q p i h.1 h.2) ∙ hit) in
            patch_byte_lem f frame g h.1 h.2 r refl true i parts.1
            ∙ sym (old q p i parts.0 (ground (arith, parts.1, h.0))),
        patches-Honest gs (lsn + 1) g.1 c (patched c r content) h.3 λ q p i here later.
            let miss : rewrites c r q p i ≡ false =
              rewrites_patch lsn g c q p i h.1 h.2
              ∙ misses (not (contains c.committed txn || contains c.aborted txn)) (is_page f q p)
                  (in_interval g (i / 8)) (ground (arith, later)) in
            rw miss (old q p i here (omega (arith, later, h.0, h.1))),
      )
    where
      hits : (a b d : Bool) → (a && (b && d)) ≡ true → (b ≡ true) × (d ≡ true)
      hits true true true e = (refl, refl)
      hits true true false e = absurd (cc e)
      hits true false d e = absurd (cc e)
      hits false b d e = absurd (cc e)

      misses : (a b d : Bool) → d ≡ false → (a && (b && d)) ≡ false
      misses a b d e = ground (arith, e)

  -- The patches of a finished transaction are not undone.
  pub patches-Honest_ended :
      (gs : List (ℕ × ℕ)) (lsn w : ℕ) (c : Collected) (content : Content)
      → AreIntervals w gs
      → (contains c.committed txn || contains c.aborted txn) ≡ true
      → Honest c content (patches f lsn txn gs)
  unfolding patches
  patches-Honest_ended [] lsn w c content h done = tt
  patches-Honest_ended (g ∷ gs) lsn w c content h done = (
    λ q p i hit. absurd (
        false≢true (
          sym (no_hit (contains c.committed txn || contains c.aborted txn) _ done)
          ∙ (sym (rewrites_patch lsn g c q p i h.1 h.2) ∙ hit))),
    patches-Honest_ended gs (lsn + 1) g.1 c _ h.3 done,
  )
    where
      no_hit : (a d : Bool) → a ≡ true → (not a && d) ≡ false
      no_hit a d e = ground (arith, e)
