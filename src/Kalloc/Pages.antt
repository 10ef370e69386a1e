-- ===== src/Kalloc/Pages.antt =====
-- The free list of kalloc.c as the list of its pages, and what kfree and kalloc do to that list.
use mit_xv.Prelude.{
  ℕ, ◌≤◌, ◌≡◌, refl, sym, subst, ◌≢◌, inl, inr, Bool, true, false, not, ◌&&◌, ◌||◌, List, [], ◌∷◌,
  arith, ◌==◌, ==→eq, ne→==, Bool-cases, update, update_self, ok,
}
use mit_xv.Kalloc.{kern_base, Kmem, in_page, fill_page, is_page, kfree, kalloc}

unfoldable pub has : ℕ → List ℕ → Bool
has p [] = false
has p (q ∷ qs) = (q == p) || has p qs

-- From `r` on, the pages are linked through their first words, and the last word is null.
unfoldable pub Chain : (ℕ → ℕ) → ℕ → List ℕ → Type 0
Chain mem r [] = r ≡ 0
Chain mem r (p ∷ ps) = (r ≡ p) × Chain mem (mem p) ps

unfoldable pub distinct : List ℕ → Bool
distinct [] = true
distinct (p ∷ ps) = not (has p ps) && distinct ps

-- `pages` is what the free list holds, in order.
pub record Free (kernel_end : ℕ) (pages : List ℕ) (k : Kmem) : Type 0 where
  pub chain : Chain k.mem k.freelist pages
  pub once : distinct pages ≡ true
  pub are_pages : (p : ℕ) → has p pages ≡ true → is_page kernel_end p ≡ true

pub Chain-agree :
    (mem mem' : ℕ → ℕ) (r : ℕ) (pages : List ℕ)
    → ((p : ℕ) → has p pages ≡ true → mem' p ≡ mem p)
    → Chain mem r pages
    → Chain mem' r pages
unfolding Chain has
Chain-agree mem mem' r [] same c = c
Chain-agree mem mem' r (p ∷ ps) same c = (
  c.0,
  subst (λ t. Chain mem' t ps) (sym (same p (ground arith)))
      (Chain-agree mem mem' (mem p) ps (λ q h. same q (ground arith)) c.1),
)

-- Two pages do not overlap.
pub in_page-page :
    (kernel_end p v : ℕ)
    → is_page kernel_end p ≡ true
    → is_page kernel_end v ≡ true
    → v ≢ p
    → in_page v p ≡ false
in_page-page kernel_end p v hp hv ne = ground arith

module _ (kernel_end : ℕ) (above : kern_base ≤ kernel_end) where
  pub page_nonzero : (p : ℕ) → is_page kernel_end p ≡ true → p ≢ 0
  page_nonzero p h e = ground arith

  -- A page that is not free is put in front of the free list, and no other page is written to.
  pub kfree-Free :
      (v : ℕ) (pages : List ℕ) (k : Kmem)
      → Free kernel_end pages k
      → is_page kernel_end v ≡ true
      → has v pages ≡ false
      → (k' : Kmem) × (kfree kernel_end v k ≡ ok k')
        × Free kernel_end (v ∷ pages) k'
        × ((a : ℕ) → in_page v a ≡ false → k'.mem a ≡ k.mem a)
  unfolding kfree Chain has distinct
  kfree-Free v pages k f page out = (
    record { freelist = v; mem = update (fill_page v k.mem) v k.freelist },
    rw page refl,
    record {
      chain = (
        refl,
        subst (λ t. Chain (update (fill_page v k.mem) v k.freelist) t pages)
            (sym (update_self (fill_page v k.mem) v k.freelist))
            (Chain-agree k.mem (update (fill_page v k.mem) v k.freelist) k.freelist pages
              (λ p h.
                untouched p (apart p h)
                  (in_page-page kernel_end p v (f.are_pages p h) page (apart p h)))
              f.chain),
      );
      once = rw out f.once;
      are_pages = λ p h. elim (Bool-cases (v == p)) [
        | inl y ↦ subst (λ t. is_page kernel_end t ≡ true) (==→eq v p y) page
        | inr n ↦ f.are_pages p (rw n at h)
      ];
    },
    λ a h. untouched a (λ e. ground arith) h,
  )
    where
      untouched :
          (a : ℕ)
          → v ≢ a
          → in_page v a ≡ false
          → update (fill_page v k.mem) v k.freelist a ≡ k.mem a
      untouched a ne h = ground arith

      apart : (p : ℕ) → has p pages ≡ true → v ≢ p
      apart p h e = let t : has v pages ≡ true = subst (λ t. has t pages ≡ true) (sym e) h in cc

  -- The first free page is handed out, or none if none is free.
  abbrev pub Handed : List ℕ → Kmem → Type 0
  Handed [] k = kalloc k ≡ (0, k)
  Handed (p ∷ ps) k =
      (kalloc k ≡ (p, record k { freelist = k.mem p }))
      × Free kernel_end ps (record k { freelist = k.mem p })

  pub kalloc-Handed : (pages : List ℕ) (k : Kmem) → Free kernel_end pages k → Handed pages k
  unfolding kalloc Chain has distinct
  kalloc-Handed [] k f = rw (f.chain) refl
  kalloc-Handed (p ∷ ps) k f =
      let e : k.freelist ≡ p = f.chain.0 in
      let n : (p == 0) ≡ false = ne→== p 0 (page_nonzero p (f.are_pages p (ground arith))) in
      (
        rw (e, n) refl,
        record {
          chain = f.chain.1;
          once = ground (arith, f.once);
          are_pages = λ q h. f.are_pages q (ground arith);
        },
      )
