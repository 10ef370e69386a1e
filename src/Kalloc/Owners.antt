-- ===== src/Kalloc/Owners.antt =====
-- The pages of kalloc.c and their owners, who write to them as they like.
use mit_xv.Prelude.{
  ℕ, ◌≤◌, ◌≡◌, refl, sym, ap, ◌∙◌, subst, ◌≢◌, ◌⊎◌, inl, inr, true, false, not, ◌&&◌, ◌||◌, List,
  [], ◌∷◌, arith, ◌==◌, if◌then◌else◌, ==→eq, Bool-cases, update, update_ne, ok-injective, ok,
}
use mit_xv.Kalloc.{kern_base, Kmem, in_page, is_page, kfree, kalloc}
use mit_xv.Kalloc.Pages.{
  has, Free, Chain-agree, distinct, kfree-Free, kalloc-Handed, in_page-page, page_nonzero,
}

unfoldable pub remove : ℕ → List ℕ → List ℕ
remove p [] = []
remove p (q ∷ qs) = let rest = remove p qs in if q == p then rest else q ∷ rest

has-remove : (p a : ℕ) (qs : List ℕ) → has a (remove p qs) ≡ (has a qs && not (p == a))
unfolding has remove
has-remove p a [] = refl
has-remove p a (q ∷ qs) = ground (arith, has-remove p a qs)

pub record Memory : Type 0 where
  pub kmem : Kmem
  pub owned : List ℕ

-- A page is taken by kalloc; its owner writes a word of it; or gives it back.
pub data Step (kernel_end : ℕ) (m : Memory) : Memory → Type 0 where
  allocates :
      (p : ℕ) {k : Kmem}
      → kalloc m.kmem ≡ (p, k)
      → p ≢ 0
      → Step kernel_end m (record { kmem = k; owned = p ∷ m.owned })
  writes :
      (p a w : ℕ)
      → has p m.owned ≡ true
      → in_page p a ≡ true
      → Step kernel_end m
          (record m { kmem = record { freelist = m.kmem.freelist; mem = update m.kmem.mem a w } })
  frees :
      (p : ℕ) {k : Kmem}
      → has p m.owned ≡ true
      → kfree kernel_end p m.kmem ≡ ok k
      → Step kernel_end m (record { kmem = k; owned = remove p m.owned })

-- From a kernel that has freed `pages` and handed out none.
pub data Reach (kernel_end : ℕ) (pages : List ℕ) : Memory → Type 0 where
  boot :
      {k : Kmem}
      → Free kernel_end pages k
      → Reach kernel_end pages (record { kmem = k; owned = [] })
  next : {m n : Memory} → Reach kernel_end pages m → Step kernel_end m n → Reach kernel_end pages n

-- The free pages, and that each page is free or owned but not both.
pub record Shared (kernel_end : ℕ) (pages : List ℕ) (m : Memory) : Type 0 where
  pub now_free : List ℕ
  pub free : Free kernel_end now_free m.kmem
  pub apart : (p : ℕ) → (has p now_free && has p m.owned) ≡ false
  pub all : (p : ℕ) → has p pages ≡ (has p now_free || has p m.owned)
  pub are_pages : (p : ℕ) → has p m.owned ≡ true → is_page kernel_end p ≡ true

module _ (kernel_end : ℕ) (above : kern_base ≤ kernel_end) (pages : List ℕ) where
  allocates-Shared :
      (m : Memory) (p : ℕ) (k : Kmem)
      → kalloc m.kmem ≡ (p, k)
      → p ≢ 0
      → Shared kernel_end pages m
      → Shared kernel_end pages (record { kmem = k; owned = p ∷ m.owned })
  unfolding has distinct
  allocates-Shared m p k e ne s = go s.now_free s.free s.apart s.all
    where
      go :
          (now_free : List ℕ)
          → Free kernel_end now_free m.kmem
          → ((q : ℕ) → (has q now_free && has q m.owned) ≡ false)
          → ((q : ℕ) → has q pages ≡ (has q now_free || has q m.owned))
          → Shared kernel_end pages (record { kmem = k; owned = p ∷ m.owned })
      go [] f apart all =
          absurd
            (ne (ap (λ (t : ℕ × Kmem). t.0) (sym e ∙ kalloc-Handed kernel_end above [] m.kmem f)))
      go (q ∷ qs) f apart all =
          let (h, f') = kalloc-Handed kernel_end above (q ∷ qs) m.kmem f in
          let same : q ≡ p = ap (λ (t : ℕ × Kmem). t.0) (sym h ∙ e) in
          let after : record m.kmem { freelist = m.kmem.mem q } ≡ k =
            ap (λ (t : ℕ × Kmem). t.1) (sym h ∙ e) in
          record {
            now_free = qs;
            free = subst (Free kernel_end qs) after f';
            apart = λ a. parted a same (apart a);
            all = λ a. together a same (all a);
            are_pages = λ a h'. elim (Bool-cases (p == a)) [
              | inl y ↦ f.are_pages a (ground arith)
              | inr n ↦ s.are_pages a (rw n at h')
            ];
          }
        where
          fresh : has q qs ≡ false
          fresh = ground (arith, f.once)

          parted :
              (a : ℕ)
              → q ≡ p
              → (((q == a) || has a qs) && has a m.owned) ≡ false
              → (has a qs && ((p == a) || has a m.owned)) ≡ false
          parted a same h = elim (Bool-cases (q == a)) [
            | inl y ↦
                let t : has a qs ≡ false = subst (λ x. has x qs ≡ false) (==→eq q a y) fresh in
                rw t refl
            | inr n ↦ ground arith
          ]

          together :
              (a : ℕ)
              → q ≡ p
              → has a pages ≡ (((q == a) || has a qs) || has a m.owned)
              → has a pages ≡ (has a qs || ((p == a) || has a m.owned))
          together a same h = ground arith

  frees-Shared :
      (m : Memory) (p : ℕ) (k : Kmem)
      → has p m.owned ≡ true
      → kfree kernel_end p m.kmem ≡ ok k
      → Shared kernel_end pages m
      → Shared kernel_end pages (record { kmem = k; owned = remove p m.owned })
  unfolding has
  frees-Shared m p k own e s =
      let out : has p s.now_free ≡ false = ground (arith, s.apart p) in
      let (k', e', f, same) =
        kfree-Free kernel_end above p s.now_free m.kmem s.free (s.are_pages p own) out in
      record {
        now_free = p ∷ s.now_free;
        free = subst (Free kernel_end (p ∷ s.now_free)) (ok-injective (sym e' ∙ e)) f;
        apart = λ a. rw (has-remove p a m.owned) (ground (arith, s.apart a));
        all = λ a. rw (has-remove p a m.owned) (back a);
        are_pages = λ a h. s.are_pages a (ground (arith, rw (has-remove p a m.owned) at h));
      }
    where
      back :
          (a : ℕ)
          → has a pages ≡ (((p == a) || has a s.now_free) || (has a m.owned && not (p == a)))
      back a = elim (Bool-cases (p == a)) [
        | inl y ↦
            let t : has a m.owned ≡ true = subst (λ x. has x m.owned ≡ true) (==→eq p a y) own in
            ground (arith, s.all a)
        | inr n ↦ ground (arith, s.all a)
      ]

  writes-Shared :
      (m : Memory) (p a w : ℕ)
      → has p m.owned ≡ true
      → in_page p a ≡ true
      → Shared kernel_end pages m
      → Shared kernel_end pages
          (record m { kmem = record { freelist = m.kmem.freelist; mem = update m.kmem.mem a w } })
  writes-Shared m p a w own inside s = record {
    now_free = s.now_free;
    free = record {
      chain =
          Chain-agree m.kmem.mem (update m.kmem.mem a w) m.kmem.freelist s.now_free
            (λ q h. update_ne m.kmem.mem a w q (λ t. clash q h t)) s.free.chain;
      once = s.free.once;
      are_pages = s.free.are_pages;
    };
    apart = s.apart;
    all = s.all;
    are_pages = s.are_pages;
  }
    where
      other : (q : ℕ) → has q s.now_free ≡ true → p ≢ q
      other q h t =
          let o : has q m.owned ≡ true = subst (λ x. has x m.owned ≡ true) t own in
          absurd (ground (arith, s.apart q))

      clash : (q : ℕ) → has q s.now_free ≡ true → a ≢ q
      clash q h t =
          let n : in_page p q ≡ false =
            in_page-page kernel_end q p (s.free.are_pages q h) (s.are_pages p own) (other q h) in
          let i : in_page p q ≡ true = subst (λ x. in_page p x ≡ true) t inside in cc

  Reach-Shared : {m : Memory} → Reach kernel_end pages m → Shared kernel_end pages m
  unfolding has
  Reach-Shared (boot f) = record {
    now_free = pages;
    free = f;
    apart = λ p. ground arith;
    all = λ p. ground arith;
    are_pages = λ p h. cc;
  }
  Reach-Shared (next {m} r (allocates p {k} e ne)) = allocates-Shared m p k e ne (Reach-Shared r)
  Reach-Shared (next {m} r (writes p a w own inside)) =
      writes-Shared m p a w own inside (Reach-Shared r)
  Reach-Shared (next {m} r (frees p {k} own e)) = frees-Shared m p k own e (Reach-Shared r)

  -- However pages are taken, written to by their owners and given back, kalloc hands out a page
  -- that nobody owns; it fails only when all the pages of the kernel are owned; and an owner's
  -- kfree of its page does not panic.
  pub kalloc_safe :
      {m : Memory}
      → Reach kernel_end pages m
      → ((p : ℕ) (k : Kmem)
          → kalloc m.kmem ≡ (p, k)
          → ((p ≡ 0) × ((q : ℕ) → has q m.owned ≡ has q pages))
            ⊎ ((p ≢ 0) × (has p pages ≡ true) × (has p m.owned ≡ false)))
        × ((p : ℕ) → has p m.owned ≡ true → (k : Kmem) × (kfree kernel_end p m.kmem ≡ ok k))
  unfolding has
  kalloc_safe {m} r = (
    λ p k e. hands p k e s.now_free s.free s.apart s.all,
    λ p own.
        let out : has p s.now_free ≡ false = ground (arith, s.apart p) in
        let (k', e', f, same) =
          kfree-Free kernel_end above p s.now_free m.kmem s.free (s.are_pages p own) out in
        (k', e'),
  )
    where
      s : Shared kernel_end pages m
      s = Reach-Shared r

      hands :
          (p : ℕ) (k : Kmem)
          → kalloc m.kmem ≡ (p, k)
          → (now_free : List ℕ) → Free kernel_end now_free m.kmem
          → ((q : ℕ) → (has q now_free && has q m.owned) ≡ false)
          → ((q : ℕ) → has q pages ≡ (has q now_free || has q m.owned))
          → ((p ≡ 0) × ((q : ℕ) → has q m.owned ≡ has q pages))
            ⊎ ((p ≢ 0) × (has p pages ≡ true) × (has p m.owned ≡ false))
      hands p k e [] f apart all = inl (
        ap (λ (t : ℕ × Kmem). t.0) (sym e ∙ kalloc-Handed kernel_end above [] m.kmem f),
        λ q. sym (all q),
      )
      hands p k e (q ∷ qs) f apart all =
          let (h, f') = kalloc-Handed kernel_end above (q ∷ qs) m.kmem f in
          let same : q ≡ p = ap (λ (t : ℕ × Kmem). t.0) (sym h ∙ e) in
          let here : (q == p) ≡ true = ground arith in
          inr (
            page_nonzero kernel_end above p (f.are_pages p (rw here refl)),
            ground (arith, all p),
            ground (arith, apart p),
          )
