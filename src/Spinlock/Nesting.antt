-- ===== src/Spinlock/Nesting.antt =====
-- pushcli and popcli of spinlock.c in matched calls.
use mit_xv.Prelude.{
  ℕ, zero, suc, ◌<◌, ◌≡◌, refl, ◌∙◌, false, arith, ◌==◌, if◌then◌else◌, Outcome, and_then, ok,
  panic,
}
use mit_xv.Spinlock.{Cpu, pushcli, popcli}

-- Interrupts are off while a pushcli is not undone.
abbrev pub Masked : Cpu → Type 0
Masked c = 0 < c.ncli → c.interrupts ≡ false

unfoldable pub pushclis : ℕ → Cpu → Cpu
pushclis zero c = c
pushclis (suc n) c = pushclis n (pushcli c)

unfoldable pub popclis : ℕ → Cpu → Outcome Cpu
popclis zero c = ok c
popclis (suc n) c = and_then (popclis n) (popcli c)

pub Masked-pushcli : (c : Cpu) → Masked (pushcli c)
unfolding pushcli
Masked-pushcli c h = refl

pub Masked-popcli : (c c' : Cpu) → Masked c → popcli c ≡ ok c' → Masked c'
unfolding popcli
Masked-popcli c c' m e h = ground arith

-- A `popcli` that undoes the last of the calls before it, and the state it leaves.
pub popcli-pushcli :
    (c : Cpu)
    → Masked c
    → (c' : Cpu) × (popcli (pushcli c) ≡ ok c')
      × (c'.ncli ≡ c.ncli)
      × (c'.interrupts ≡ c.interrupts)
      × (0 < c.ncli → c'.intena ≡ c.intena)
unfolding popcli pushcli
popcli-pushcli c m = (
  record {
    ncli = c.ncli;
    intena = if c.ncli == 0 then c.interrupts else c.intena;
    interrupts = c.interrupts;
  },
  ground arith,
  refl,
  refl,
  λ h. ground arith,
)

-- `c'` is `c`, but for an `intena` that the next outermost pushcli overwrites.
pub record Restored (c c' : Cpu) : Type 0 where
  pub same_depth : c'.ncli ≡ c.ncli
  pub same_flag : c'.interrupts ≡ c.interrupts
  pub same_intena : 0 < c.ncli → c'.intena ≡ c.intena

popclis-last : (n : ℕ) (c : Cpu) → popclis (suc n) c ≡ and_then popcli (popclis n c)
unfolding popclis
popclis-last zero c = one (popcli c)
  where
    one : (o : Outcome Cpu) → and_then ok o ≡ o
    one (ok d) = refl
    one (panic m) = refl
popclis-last (suc n) c = first (λ d. popclis-last n d) (popcli c)
  where
    first :
        ((d : Cpu) → popclis (suc n) d ≡ and_then popcli (popclis n d))
        → (o : Outcome Cpu)
        → and_then (popclis (suc n)) o ≡ and_then popcli (and_then (popclis n) o)
    first each (ok d) = each d
    first each (panic m) = refl

Restored-pushcli : (c d : Cpu) → Restored (pushcli c) d → d ≡ pushcli c
unfolding pushcli
Restored-pushcli c d r = same d r.same_depth (r.same_intena (omega arith)) r.same_flag
  where
    same :
        (e : Cpu)
        → e.ncli ≡ (pushcli c).ncli
        → e.intena ≡ (pushcli c).intena
        → e.interrupts ≡ (pushcli c).interrupts
        → e ≡ pushcli c
    same e p q s i = record { ncli = p i; intena = q i; interrupts = s i }

-- On a CPU whose interrupts are off while a pushcli is not undone, `n` calls of pushcli disable
-- them, and as many of popcli do not panic and lead back to the flag and the depth from before.
pub cli_nesting :
    (n : ℕ) (c : Cpu)
    → Masked c
    → (0 < n → (pushclis n c).interrupts ≡ false)
      × ((c' : Cpu) × (popclis n (pushclis n c) ≡ ok c') × Restored c c')
unfolding pushclis popclis pushcli
cli_nesting zero c m = (
  λ h. absurd (omega arith),
  (c, refl, record { same_depth = refl; same_flag = refl; same_intena = λ _. refl }),
)
cli_nesting (suc n) c m =
    let (off, (d, e, r)) = cli_nesting n (pushcli c) (Masked-pushcli c) in
    let (c', e', depth, flag, intena) = popcli-pushcli c m in
    let whole : popclis (suc n) (pushclis n (pushcli c)) ≡ ok c' =
      popclis-last n (pushclis n (pushcli c)) ∙ rw e (rw (Restored-pushcli c d r) e') in
    (
      λ h. masked n off,
      (c', whole, record { same_depth = depth; same_flag = flag; same_intena = intena }),
    )
  where
    masked :
        (k : ℕ)
        → (0 < k → (pushclis k (pushcli c)).interrupts ≡ false)
        → (pushclis k (pushcli c)).interrupts ≡ false
    masked zero off = refl
    masked (suc k) off = off (omega arith)
