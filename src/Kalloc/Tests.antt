-- ===== src/Kalloc/Tests.antt =====
-- A kernel that ends 1000 bytes into its memory, and two free pages behind it.
use mit_xv.Prelude.{ℕ, ◌≡◌, refl, ◌≢◌, ◌⊎◌, true, false, [], ◌∷◌, arith, ◌==◌, if◌then◌else◌, ok}
use mit_xv.Kalloc.{Kmem, kfree, kalloc, free_pages, round_up}
use mit_xv.Kalloc.Pages.{has, Chain, distinct, Free}
use mit_xv.Kalloc.Owners.{Memory, allocates, Reach, boot, next, kalloc_safe}

abbrev kernel_end : ℕ
kernel_end = 2147484648

abbrev first : ℕ
first = 2147487744

abbrev second : ℕ
second = 2147491840

abbrev nothing_free : Kmem
nothing_free = record { freelist = 0; mem = λ _. 0 }

nothing-Free : Free kernel_end [] nothing_free
unfolding Chain has distinct
nothing-Free = record { chain = refl; once = refl; are_pages = λ p h. cc }

abbrev two_free : Kmem
two_free = record { freelist = first; mem = λ a. if a == first then second else 0 }

two-Free : Free kernel_end (first ∷ second ∷ []) two_free
unfolding Chain has distinct
two-Free = record { chain = (refl, (refl, refl)); once = refl; are_pages = λ p h. ground arith }

-- The free list after a run of the loop: the last page of the range is on top.
free_pages_runs :
    (k : Kmem) × (free_pages 3 kernel_end (round_up kernel_end) 2147496000 nothing_free ≡ ok k)
    × (k.freelist ≡ second)
    × (k.mem second ≡ first)
    × (k.mem first ≡ 0)
unfolding free_pages kfree
free_pages_runs = (_, refl, refl, refl, refl)

abbrev one_taken : Memory
one_taken = record { kmem = record two_free { freelist = second }; owned = first ∷ [] }

takes : kalloc two_free ≡ (first, record two_free { freelist = second })
unfolding kalloc
takes = refl

one_taken-Reach : Reach kernel_end (first ∷ second ∷ []) one_taken
one_taken-Reach = next (boot two-Free) (allocates first takes (λ e. omega arith))

kalloc_safe_example :
    ((p : ℕ) (k : Kmem)
      → kalloc one_taken.kmem ≡ (p, k)
      → ((p ≡ 0) × ((q : ℕ) → has q one_taken.owned ≡ has q (first ∷ second ∷ [])))
        ⊎ ((p ≢ 0) × (has p (first ∷ second ∷ []) ≡ true) × (has p one_taken.owned ≡ false)))
    × ((p : ℕ)
        → has p one_taken.owned ≡ true
        → (k : Kmem) × (kfree kernel_end p one_taken.kmem ≡ ok k))
kalloc_safe_example = kalloc_safe kernel_end (omega arith) (first ∷ second ∷ []) one_taken-Reach
