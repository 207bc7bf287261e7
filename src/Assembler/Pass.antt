-- ===== src/Assembler/Pass.antt =====
-- src/core/assembly.c: what a pass of the loop that fills the table of jumps comes to.
use zis_lang.Common.{
  ℕ, zero, suc, ◌+◌, ◌≤◌, ◌<◌, ◌≡◌, refl, ap, sym, ◌∙◌, Bool-cases, inl, inr, arith, List, [], ◌∷◌,
  length, get_elem?, set, some, length-set, get_elem?-set_self, get_elem?-set_ne, ◌==◌, ==_iff,
}
use mathlib.Core.Path.{subst}
use mathlib.Core.Option.{none-ne-some, some_inj}
use zis_lang.Assembler.{Assembler, Jump, is_extended}
use zis_lang.Assembler.Finish.{
  Filled, fills, extends, panics, fill_at, Turn, ends, restarts, panic, extend, fill_pass,
}
use zis_lang.Assembler.Entry.{Keeps, SamePlace, fill_at-Keeps}
use zis_lang.Assembler.Fill.{Alike, Alike-refl, Alike-trans, Alike-set}

pub get_elem?-inside {ℓ} :
    {A : Type ℓ} (xs : List A) (i : ℕ) → i < length xs → (x : A) × (get_elem? xs i ≡ some x)
get_elem?-inside [] i h = absurd (omega arith)
get_elem?-inside (x ∷ xs) zero h = (x, refl)
get_elem?-inside (x ∷ xs) (suc i) h = get_elem?-inside xs i (omega arith)

pub get_elem?-length {ℓ} :
    {A : Type ℓ} (xs : List A) (i : ℕ) (x : A) → get_elem? xs i ≡ some x → i < length xs
get_elem?-length [] i x h = absurd (none-ne-some x h)
get_elem?-length (y ∷ xs) zero x h = omega arith
get_elem?-length (y ∷ xs) (suc i) x h = omega (arith, get_elem?-length xs i x h)

-- every element has a property
abbrev pub All {ℓ} : {A : Type ℓ} → (A → Type 0) → List A → Type ℓ
All {A = A} P xs = (i : ℕ) (x : A) → get_elem? xs i ≡ some x → P x

pub All-set {ℓ} :
    {A : Type ℓ} (P : A → Type 0) (xs : List A) (i : ℕ) (y : A)
    → All P xs
    → P y
    → All P (set xs i y)
All-set P [] i y a p k x h = absurd (none-ne-some x h)
All-set P (x1 ∷ xs) zero y a p zero x h = subst P (some_inj.0 h) p
All-set P (x1 ∷ xs) zero y a p (suc k) x h = a (suc k) x h
All-set P (x1 ∷ xs) (suc i) y a p zero x h = a 0 x h
All-set P (x1 ∷ xs) (suc i) y a p (suc k) x h = All-set P xs i y (λ j. a (suc j)) p k x h

-- an entry as it was filled from another, which had a property
abbrev pub IsFilled : (Jump → Type 0) → List ℕ → Jump → Type 0
IsFilled P labels f = (e : Jump) × P e × SamePlace e f × (fill_at labels e ≡ fills f)

module _ {V : Type 0} where
  -- the same code and labels, and the same entries but for their instructions
  abbrev pub Same : Assembler V → Assembler V → Type 0
  Same s f = (f.instrs ≡ s.instrs) × (f.labels ≡ s.labels) × Alike s.jumps f.jumps

-- P is a property of entries that filling keeps.
module _ {V : Type 0} (P : Jump → Type 0) where
  -- an entry that the pass comes to, in the table as it is then
  abbrev pub Reached : Assembler V → Assembler V → ℕ → Jump → Type 0
  Reached s g k e = Same s g × All P g.jumps × (get_elem? g.jumps k ≡ some e)

  -- what a pass over n entries from ji on comes to
  unfoldable pub Outcome : Assembler V → ℕ → ℕ → Turn V → Type 0
  Outcome s ji n (ends f) =
      Same s f
      × All P f.jumps
      × ((i : ℕ) → i < ji → get_elem? f.jumps i ≡ get_elem? s.jumps i)
      × ((i : ℕ) (e : Jump)
          → ji ≤ i
          → i < ji + n
          → get_elem? f.jumps i ≡ some e
          → IsFilled P s.labels e)
  Outcome s ji n (restarts f) =
      (g : Assembler V) × (k : ℕ) × (e : Jump) × (d : Jump) × Reached s g k e
      × (fill_at s.labels e ≡ extends d)
      × (f ≡ extend g k d)
  Outcome s ji n panic =
      (g : Assembler V) × (k : ℕ) × (e : Jump) × Reached s g k e × (fill_at s.labels e ≡ panics)

  filled_place :
      (s : Assembler V) (e f : Jump)
      → fill_at s.labels e ≡ fills f
      → SamePlace e f × (is_extended f ≡ is_extended e)
  unfolding Keeps
  filled_place s e f w = subst (Keeps e) w (fill_at-Keeps s.labels e)

  -- One entry is filled, and then the others.
  step :
      (s : Assembler V) (ji n : ℕ) (e f : Jump)
      → get_elem? s.jumps ji ≡ some e
      → P e
      → fill_at s.labels e ≡ fills f
      → (t : Turn V) → Outcome (record s { jumps = set s.jumps ji f }) (suc ji) n t
      → Outcome s ji (suc n) t
  unfolding Outcome
  step s ji n e f q p w (ends h) ((a, b, al), ps, below, above) =
      let placed = filled_place s e f w in
      (
        (a, b, Alike-trans (Alike-set s.jumps ji e f q placed.0 placed.1) al),
        ps,
        λ i l. below i (omega arith) ∙ get_elem?-set_ne s.jumps f (λ z. omega (arith, z)),
        λ i x l1 l2 r. elim (Bool-cases (i == ji)) [
          | inl z ↦
              let here = (==_iff i ji).0 z in
              let found =
                below ji (omega arith)
                ∙ get_elem?-set_self s.jumps ji f (get_elem?-length s.jumps ji e q) in
              subst (IsFilled P s.labels)
                (some_inj.0 (sym found ∙ ap (get_elem? h.jumps) (sym here) ∙ r)) (e, p, placed.0, w)
          | inr z ↦ above i x (ground (arith, z)) (omega arith) r
        ],
      )
  step s ji n e f q p w (restarts h) (g, k, x, y, ((a, b, al), ps, r), u, v) =
      let placed = filled_place s e f w in
      (
        g,
        k,
        x,
        y,
        ((a, b, Alike-trans (Alike-set s.jumps ji e f q placed.0 placed.1) al), ps, r),
        u,
        v,
      )
  step s ji n e f q p w panic (g, k, x, ((a, b, al), ps, r), u) =
      let placed = filled_place s e f w in
      (g, k, x, ((a, b, Alike-trans (Alike-set s.jumps ji e f q placed.0 placed.1) al), ps, r), u)

  pub fill_pass-Outcome :
      (n ji : ℕ) (s : Assembler V)
      → ((e f : Jump) → P e → fill_at s.labels e ≡ fills f → P f)
      → All P s.jumps
      → ji + n ≤ length s.jumps
      → Outcome s ji n (fill_pass n ji s)
  unfolding Outcome fill_pass
  fill_pass-Outcome zero ji s keeps ps h =
      ((refl, refl, Alike-refl s.jumps), ps, λ i l. refl, λ i x l1 l2 r. absurd (omega arith))
  fill_pass-Outcome (suc n) ji s keeps ps h =
      let (e, q) = get_elem?-inside s.jumps ji (omega arith) in
      rw (fill_pass, q)
        (turn e q
          (λ f p.
            fill_pass-Outcome n (suc ji) (record s { jumps = set s.jumps ji f }) keeps
              (All-set P s.jumps ji f ps p) (omega (arith, length-set s.jumps ji f)))
          (fill_at s.labels e) refl)
    where
      turn :
          (e : Jump)
          → get_elem? s.jumps ji ≡ some e
          → ((f : Jump)
              → P f
              → Outcome
                  (record s { jumps = set s.jumps ji f })
                  (suc ji)
                  n
                  (fill_pass n (suc ji) (record s { jumps = set s.jumps ji f })))
          → (v : Filled) → fill_at s.labels e ≡ v
          → Outcome s ji (suc n) (elim v [
            | fills f ↦ fill_pass n (suc ji) (record s { jumps = set s.jumps ji f })
            | extends f ↦ restarts (extend s ji f)
            | panics ↦ panic
          ])
      turn e q ih (fills f) w =
          step s ji n e f q (ps ji e q) w
            (fill_pass n (suc ji) (record s { jumps = set s.jumps ji f }))
            (ih f (keeps e f (ps ji e q) w))
      turn e q ih (extends d) w = (s, ji, e, d, ((refl, refl, Alike-refl s.jumps), ps, q), w, refl)
      turn e q ih panics w = (s, ji, e, ((refl, refl, Alike-refl s.jumps), ps, q), w)
