-- ===== src/Assembler/Follow.antt =====
-- src/core/assembly.c: labels and jumps move with the instructions that they belong to.
use zis_lang.Common.{
  ℕ, zero, suc, ◌+◌, ◌-◌, ◌^◌, ◌<◌, ◌≡◌, refl, ap, sym, ◌∙◌, true, false, arith, List, [], ◌∷◌,
  length, get_elem?, set, map, some, Bool-cases, inl, inr, ◌==◌, ==_iff, get_elem?-set_self,
  get_elem?-set_ne, length-set, length-map,
}
use mathlib.Core.Path.{subst}
use mathlib.Core.Bool.{true≢false}
use mathlib.Core.Option.{none-ne-some, some_inj}
use zis_lang.Assembler.{
  Assembler, Jump, is_extended, shift_address, shift_jump, jumpinstr_table_shift, label_table_shift,
}
use zis_lang.Assembler.Finish.{extends, fill_at, extend}
use zis_lang.Assembler.Entry.{SamePlace, Keeps, fill_at-Keeps}
use zis_lang.Assembler.Layout.{Layout-get_elem?, width-pos}
use zis_lang.Assembler.Fill.{Alike, no_entry, one_more, Alike-length}
use zis_lang.Assembler.Pass.{Same, get_elem?-inside, get_elem?-length}
use zis_lang.Assembler.Extend.{IsSound}
use zis_lang.Assembler.Moved.{
  moved, inserted-Alike, inserted-shift, inserted-set, shift-moved, inserted_self,
}

-- An entry now, and as it was before the loop over the jumps
pub record Tracks (place : ℕ → ℕ) (e f : Jump) : Type 0 where
  pub address : f.address ≡ place e.address
  pub label : f.label ≡ e.label
  pub stays : is_extended f ≡ false → is_extended e ≡ false

-- All addresses have moved by the second instructions before them.
pub record IsMoved {V : Type 0} (r g : Assembler V) : Type 0 where
  pub same_length : length g.jumps ≡ length r.jumps
  pub labels :
      (j x : ℕ)
      → get_elem? r.labels j ≡ some x
      → get_elem? g.labels j ≡ some (moved r.jumps g.jumps x)
  pub jumps :
      (i : ℕ) (e : Jump)
      → get_elem? r.jumps i ≡ some e
      → (f : Jump) × (get_elem? g.jumps i ≡ some f) × Tracks (moved r.jumps g.jumps) e f

get_elem?-map {ℓ} :
    {A : Type ℓ} (f : A → A) (xs : List A) (i : ℕ) (x : A)
    → get_elem? xs i ≡ some x
    → get_elem? (map f xs) i ≡ some (f x)
get_elem?-map f [] i x q = absurd (none-ne-some x q)
get_elem?-map f (y ∷ xs) zero x q = ap (λ u. some (f u)) (some_inj.0 q)
get_elem?-map f (y ∷ xs) (suc i) x q = get_elem?-map f xs i x q

Alike-get_elem? :
    {es fs : List Jump} (i : ℕ) (e : Jump)
    → Alike es fs
    → get_elem? es i ≡ some e
    → (f : Jump) × (get_elem? fs i ≡ some f) × SamePlace e f × (is_extended f ≡ is_extended e)
Alike-get_elem? i e no_entry q = absurd (none-ne-some e q)
Alike-get_elem? zero e (one_more {e = a} {f = b} p w al) q =
    subst (λ u. (f : Jump) × (some b ≡ some f) × SamePlace u f × (is_extended f ≡ is_extended u))
      (some_inj.0 q) (b, refl, p, w)
Alike-get_elem? (suc i) e (one_more p w al) q = Alike-get_elem? i e al q

-- Setting one entry to another at the same place that is extended
set-Tracks :
    (place : ℕ → ℕ) (fs : List Jump) (k i : ℕ) (e f g d : Jump)
    → get_elem? fs k ≡ some g
    → SamePlace g d
    → is_extended d ≡ true
    → get_elem? fs i ≡ some f
    → Tracks place e f
    → (h : Jump) × (get_elem? (set fs k d) i ≡ some h) × Tracks place e h
set-Tracks place fs k i e f g d q (pa, pl) w r t = elim (Bool-cases (i == k)) [
  | inl z ↦
      let here : i ≡ k = (==_iff i k).0 z in
      let same : g ≡ f = some_inj.0 (sym q ∙ ap (get_elem? fs) (sym here) ∙ r) in
      (
        d,
        ap (get_elem? (set fs k d)) here ∙ get_elem?-set_self fs k d (get_elem?-length fs k g q),
        record {
          address = pa ∙ ap (λ (u : Jump). u.address) same ∙ t.address;
          label = pl ∙ ap (λ (u : Jump). u.label) same ∙ t.label;
          stays = λ n. absurd (true≢false (sym w ∙ n));
        },
      )
  | inr z ↦ (f, get_elem?-set_ne fs d (λ y. ground (arith, z, y)) ∙ r, t)
]

module _ {V : Type 0} (r : Assembler V) where
  pub IsMoved-refl : IsMoved r r
  IsMoved-refl = record {
    same_length = refl;
    labels = λ j x q. q ∙ ap some (omega (arith, inserted_self r.jumps x));
    jumps = λ i e q. (
      e,
      q,
      record {
        address = omega (arith, inserted_self r.jumps e.address);
        label = refl;
        stays = λ n. n;
      },
    );
  }

  pub Same-IsMoved : (g h : Assembler V) → Same g h → IsMoved r g → IsMoved r h
  Same-IsMoved g h (a, b, al) m =
      let kept =
        λ (x : ℕ). ap (λ (n : ℕ). x + n) (sym (inserted-Alike r.jumps g.jumps h.jumps x al)) in
      record {
        same_length = Alike-length al ∙ m.same_length;
        labels = λ j x q. ap (λ (u : List ℕ). get_elem? u j) b ∙ m.labels j x q ∙ ap some (kept x);
        jumps = λ i e q.
            let (f, p, t) = m.jumps i e q in
            let (f', p', (pa, pl), w) = Alike-get_elem? i f al p in
            (
              f',
              p',
              record {
                address = pa ∙ t.address ∙ kept e.address;
                label = pl ∙ t.label;
                stays = λ n. t.stays (sym w ∙ n);
              },
            );
      }

  -- What extending the entry k, now d, does to an address that has moved
  moved-extend :
      (g : Assembler V) (k x : ℕ) (a e d : Jump)
      → get_elem? r.jumps k ≡ some a
      → get_elem? g.jumps k ≡ some e
      → Tracks (moved r.jumps g.jumps) a e
      → SamePlace e d
      → is_extended e ≡ false
      → is_extended d ≡ true
      → moved r.jumps g.jumps x < 2 ^ 32 - 1
      → shift_address (d.address + 1) (moved r.jumps g.jumps x)
        ≡ moved r.jumps (jumpinstr_table_shift (d.address + 1) (set g.jumps k d)) x
  moved-extend g k x a e d p q t (pa, pl) u v l =
      let at : d.address ≡ moved r.jumps g.jumps a.address = pa ∙ t.address in
      ap (λ (n : ℕ). shift_address (n + 1) (moved r.jumps g.jumps x)) at
      ∙ shift-moved r.jumps g.jumps a.address x l
      ∙ ap (λ (n : ℕ). x + n)
          (sym (inserted-set r.jumps g.jumps k x a e d p q (t.stays u) u v)
            ∙ sym (inserted-shift (d.address + 1) r.jumps (set g.jumps k d) x))

  pub extend-IsMoved :
      (g : Assembler V) (k : ℕ) (e d : Jump)
      → IsSound g
      → length g.instrs < 2 ^ 32 - 1
      → get_elem? g.jumps k ≡ some e
      → fill_at g.labels e ≡ extends d
      → IsMoved r g
      → IsMoved r (extend g k d)
  unfolding IsSound extend Keeps label_table_shift jumpinstr_table_shift shift_jump is_extended
  extend-IsMoved g k e d (l, pl, en) s q w m =
      let (same, x, y) = subst (Keeps e) w (fill_at-Keeps g.labels e) in
      let inside : k < length r.jumps =
        omega (arith, get_elem?-length g.jumps k e q, m.same_length) in
      let (a, p) = get_elem?-inside r.jumps k inside in
      let (e', q', t') = m.jumps k a p in
      let t = subst (Tracks (moved r.jumps g.jumps) a) (some_inj.0 (sym q' ∙ q)) t' in
      let at = d.address + 1 in
      let place = λ (z : ℕ) (b : moved r.jumps g.jumps z < 2 ^ 32 - 1).
        moved-extend g k z a e d p q t same x y b in
      record {
        same_length =
            length-map (set g.jumps k d) (shift_jump at) ∙ length-set g.jumps k d ∙ m.same_length;
        labels = λ j z i.
            let here = m.labels j z i in
            get_elem?-map (shift_address at) g.labels j _ here
            ∙ ap some (place z (omega (arith, pl j _ here, s)));
        jumps = λ j z i.
            let (f, i', o) = m.jumps j z i in
            let (h, i'', o') =
              set-Tracks (moved r.jumps g.jumps) g.jumps k j z f e d q same y i' o in
            let low = Layout-get_elem? 0 (length g.instrs) g.jumps j f l i' in
            (
              shift_jump at h,
              get_elem?-map (shift_jump at) (set g.jumps k d) j h i'',
              record {
                address =
                    ap (shift_address at) o'.address
                    ∙ place z.address (omega (arith, o.address, low.1, width-pos f, s));
                label = o'.label;
                stays = o'.stays;
              },
            );
      }
