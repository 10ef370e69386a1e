-- ===== src/Trap/Fault.antt =====
-- The page fault handler of trap.c, in an address space.
use mit_xv.Prelude.{
  ℕ, suc, ◌/◌, ◌≡◌, refl, sym, ap, ◌∙◌, subst, ◌≢◌, inl, inr, true, some, List, ◌∷◌, arith, ne→==,
  Bool-cases, get_elem?,
}
use mit_xv.Vm.{Vm, fill, is_present, page_of, entry_for}
use mit_xv.Vm.Walk.{pte_of, IsFree, Tables}

-- A free page that is taken and cleared is not of the address space.
module _ (s : Vm) (g p : ℕ) (ps : List ℕ) (t : Tables s g) (f : s.free ≡ p ∷ ps) where
  abbrev pub cleared : Vm
  cleared = fill p 0 (record s { free = ps })

  p_IsFree : IsFree s p
  p_IsFree = (0, ap (λ x. get_elem? x 0) f)

  dir_same : (i : ℕ) → cleared.mem g i ≡ s.mem g i
  dir_same i = rw (ne→== p g (t.dir_free p p_IsFree)) refl

  pub pte_of-cleared : (u : ℕ) → pte_of cleared g u ≡ pte_of s g u
  unfolding pte_of
  pte_of-cleared u = rw (dir_same (u / 1024)) (elim (Bool-cases (is_present (s.mem g (u / 1024)))) [
    | inr n ↦ rw n refl
    | inl y ↦
        rw
          (
            y,
            ne→== p (page_of (s.mem g (u / 1024)))
                (λ e. t.table_free (u / 1024) p y p_IsFree (sym e)),
          )
          refl
  ])

  pub cleared-Tables : Tables cleared g
  cleared-Tables = record {
    dir_free = λ r (k, e). t.dir_free r (suc k, was r k e);
    no_dup =
        λ j k r e e'. let h = t.no_dup (suc j) (suc k) r (was r j e) (was r k e') in omega arith;
    table_dir = λ i h. subst (λ x. page_of x ≢ g) (sym (dir_same i)) (t.table_dir i (back i h));
    table_free = λ i r h (k, e).
        subst (λ x. page_of x ≢ r) (sym (dir_same i))
          (t.table_free i r (back i h) (suc k, was r k e));
    apart = λ i j h h' e.
        t.apart i j (back i h) (back j h')
          (sym (ap page_of (dir_same i)) ∙ e ∙ ap page_of (dir_same j));
  }
    where
      was : (r k : ℕ) → get_elem? ps k ≡ some r → get_elem? s.free (suc k) ≡ some r
      was r k e = ap (λ x. get_elem? x (suc k)) f ∙ e

      back : (i : ℕ) → is_present (cleared.mem g i) ≡ true → is_present (s.mem g i) ≡ true
      back i h = ap is_present (sym (dir_same i)) ∙ h

-- Virtual page `v` is mapped to a page that was free, and the other entries are as before.
pub record Resolved (s : Vm) (g v : ℕ) (s' : Vm) : Type 0 where
  pub tables : Tables s' g
  pub here : (p : ℕ) × IsFree s p × (pte_of s' g v ≡ entry_for p 6)
  pub others : (u : ℕ) → u ≢ v → pte_of s' g u ≡ pte_of s g u
