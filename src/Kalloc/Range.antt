-- ===== src/Kalloc/Range.antt =====
-- The loop of `freerange` of kalloc.c.
use mit_xv.Prelude.{
  ℕ, zero, suc, ◌+◌, ◌*◌, ◌/◌, ◌%◌, ◌≤◌, ◌<◌, ◌≡◌, refl, ap, ◌∙◌, inl, inr, Bool, true, false, ◌&&◌,
  ◌||◌, List, ◌∷◌, arith, leb, ◌==◌, ne→==, Bool-cases, Outcome, u32_mod, add32, ok,
}
use mit_xv.Kalloc.{
  page_size, kern_base, phys_stop, round_up, Kmem, is_page, kfree, free_pages, freerange,
}
use mit_xv.Kalloc.Pages.{has, Free, kfree-Free}

-- `a` is the address of a whole page between `first` and `vend`.
abbrev pub whole_page : ℕ → ℕ → ℕ → Bool
whole_page first vend a = (a % page_size == 0) && (leb first a && leb (a + page_size) vend)

-- The pages that a call added to the free list are those that pass the test.
pub record Added (kernel_end : ℕ) (test : ℕ → Bool) (pages : List ℕ) (out : Outcome Kmem)
    : Type 0 where
  pub after : Kmem
  pub returns : out ≡ ok after
  pub now_free : List ℕ
  pub free : Free kernel_end now_free after
  pub added : (a : ℕ) → has a now_free ≡ (has a pages || test a)

module _ (kernel_end vend : ℕ) (above : kern_base ≤ kernel_end)
    (below : vend ≤ kern_base + phys_stop) where
  next_page : (p : ℕ) → p + page_size ≤ vend → add32 p page_size ≡ p + page_size
  next_page p h = ground arith

  page_here :
      (p : ℕ)
      → p % page_size ≡ 0
      → kernel_end ≤ p
      → p + page_size ≤ vend
      → is_page kernel_end p ≡ true
  page_here p al lo hi = ground arith

  whole_page-step :
      (p a : ℕ) (b : Bool)
      → p % page_size ≡ 0
      → p + page_size ≤ vend
      → (((p == a) || b) || whole_page (p + page_size) vend a) ≡ (b || whole_page p vend a)
  whole_page-step p a b al hi = ground arith

  free_pages-step :
      (n p : ℕ) (k k' : Kmem)
      → p + page_size ≤ vend
      → kfree kernel_end p k ≡ ok k'
      → free_pages (suc n) kernel_end p vend k ≡ free_pages n kernel_end (p + page_size) vend k'
  unfolding free_pages
  free_pages-step n p k k' hi e =
      let y : leb (p + page_size) vend ≡ true = ground arith in rw (next_page p hi, y, e) refl

  free_pages-stop :
      (n p : ℕ) (k : Kmem)
      → leb (add32 p page_size) vend ≡ false
      → free_pages (suc n) kernel_end p vend k ≡ ok k
  unfolding free_pages
  free_pages-stop n p k h = rw h refl

  -- From page `p` on, with fuel for every page up to `vend`.
  pub free_pages-Added :
      (n p : ℕ) (pages : List ℕ) (k : Kmem)
      → 0 < n
      → vend < p + n * page_size
      → p + page_size < u32_mod
      → p % page_size ≡ 0
      → kernel_end ≤ p
      → ((q : ℕ) → p ≤ q → q < vend → has q pages ≡ false)
      → Free kernel_end pages k
      → Added kernel_end (whole_page p vend) pages (free_pages n kernel_end p vend k)
  unfolding has
  free_pages-Added zero p pages k pos fuel small al lo apart f = absurd (omega arith)
  free_pages-Added (suc n) p pages k pos fuel small al lo apart f =
      elim (Bool-cases (leb (add32 p page_size) vend)) [
        | inr stop ↦ record {
          after = k;
          returns = free_pages-stop n p k stop;
          now_free = pages;
          free = f;
          added = λ a. ground arith;
        }
        | inl y ↦
            let hi : p + page_size ≤ vend = ground arith in
            let (k', e, f', same) =
              kfree-Free kernel_end above p pages k f (page_here p al lo hi)
                (apart p (omega arith) (omega arith)) in
            let rest =
              free_pages-Added n (p + page_size) (p ∷ pages) k' (omega arith) (omega arith)
                (omega arith) (omega arith) (omega arith)
                (λ q h h'. rw (ne→== p q (λ t. omega arith)) (apart q (omega arith) h')) f' in
            record {
              after = rest.after;
              returns = free_pages-step n p k k' hi e ∙ rest.returns;
              now_free = rest.now_free;
              free = rest.free;
              added = λ a. rest.added a ∙ whole_page-step p a (has a pages) al hi;
            }
      ]

  whole_page-round_up :
      (vstart a : ℕ)
      → vstart ≤ kern_base + phys_stop
      → whole_page (round_up vstart) vend a ≡ whole_page vstart vend a
  whole_page-round_up vstart a h = ground arith

  -- `freerange` of memory behind the kernel, none of which is free yet, returns, and adds exactly
  -- the whole pages of the range to the free pages.
  pub freerange-Added :
      (vstart : ℕ) (pages : List ℕ) (k : Kmem)
      → kernel_end ≤ vstart
      → vstart ≤ kern_base + phys_stop
      → ((q : ℕ) → vstart ≤ q → q < vend → has q pages ≡ false)
      → Free kernel_end pages k
      → Added kernel_end (whole_page vstart vend) pages (freerange kernel_end vstart vend k)
  unfolding freerange
  freerange-Added vstart pages k lo hi apart f =
      let r =
        free_pages-Added (vend / page_size + 1) (round_up vstart) pages k (omega arith)
          (omega arith) (omega arith) (omega arith) (omega arith)
          (λ q h h'. apart q (omega arith) h') f in
      record {
        after = r.after;
        returns = r.returns;
        now_free = r.now_free;
        free = r.free;
        added = λ a. r.added a ∙ ap (λ t. has a pages || t) (whole_page-round_up vstart a hi);
      }
