-- ===== src/Proc/Table.antt =====
-- Reading a slot of the process table after a change of a slot, a wakeup or a search.
use mit_xv.Prelude.{
  ℕ, zero, suc, ◌+◌, ◌-◌, ◌≤◌, ◌≡◌, refl, ap, ◌∙◌, inl, inr, Bool, true, false, ◌&&◌, Option, none,
  some, List, [], ◌∷◌, arith, ◌==◌, if◌then◌else◌, Bool-cases, length, get_elem?,
}
use mathlib.Core.Option
use mit_xv.Proc.{sleeping, runnable, zombie, state_eq, Chan, Proc, is_proc, modify, find_from}
use mit_xv.Proc.Switch.{wakeup1, same_chan}
use mit_xv.Proc.Life.{find_child}

pub get_elem?-modify :
    (i j : ℕ) (f : Proc → Proc) (ps : List Proc)
    → get_elem? (modify i f ps) j
      ≡ (if i == j then Option.map f (get_elem? ps j) else get_elem? ps j)
unfolding modify
get_elem?-modify i j f [] = ground arith
get_elem?-modify zero zero f (p ∷ ps) = refl
get_elem?-modify zero (suc j) f (p ∷ ps) = ground arith
get_elem?-modify (suc i) zero f (p ∷ ps) = ground arith
get_elem?-modify (suc i) (suc j) f (p ∷ ps) = get_elem?-modify i j f ps ∙ ground arith

pub length-modify : (i : ℕ) (f : Proc → Proc) (ps : List Proc) → length (modify i f ps) ≡ length ps
unfolding modify
length-modify i f [] = refl
length-modify zero f (p ∷ ps) = refl
length-modify (suc i) f (p ∷ ps) = ap suc (length-modify i f ps)

-- What a wakeup on `c` makes of a process.
abbrev pub wake : Option Chan → Proc → Proc
wake c p =
    if state_eq p.state sleeping && same_chan p.chan c then record p { state = runnable } else p

pub get_elem?-wakeup1 :
    (c : Option Chan) (j : ℕ) (ps : List Proc)
    → get_elem? (wakeup1 c ps) j ≡ Option.map (wake c) (get_elem? ps j)
unfolding wakeup1
get_elem?-wakeup1 c j [] = refl
get_elem?-wakeup1 c zero (p ∷ ps) = refl
get_elem?-wakeup1 c (suc j) (p ∷ ps) = get_elem?-wakeup1 c j ps

pub length-wakeup1 : (c : Option Chan) (ps : List Proc) → length (wakeup1 c ps) ≡ length ps
unfolding wakeup1
length-wakeup1 c [] = refl
length-wakeup1 c (p ∷ ps) = ap suc (length-wakeup1 c ps)

-- A slot that a search found.
abbrev pub Slot : (Proc → Bool) → ℕ → List Proc → Type 0
Slot t i ps = (p : Proc) × (get_elem? ps i ≡ some p) × (t p ≡ true)

-- No slot passes the test.
abbrev pub NoSlot : (Proc → Bool) → List Proc → Type 0
NoSlot t ps = (j : ℕ) (p : Proc) → get_elem? ps j ≡ some p → t p ≡ false

NoSlot-cons :
    (t : Proc → Bool) (p : Proc) (ps : List Proc) → t p ≡ false → NoSlot t ps → NoSlot t (p ∷ ps)
NoSlot-cons t p ps h rest zero q e = ground arith
NoSlot-cons t p ps h rest (suc j) q e = rest j q e

-- A slot that was found behind the first is found one further on.
Slot-suc :
    (t : Proc → Bool) (i n : ℕ) (p : Proc) (ps : List Proc)
    → (i + 1 ≤ n) × Slot t (n - (i + 1)) ps
    → (i ≤ n) × Slot t (n - i) (p ∷ ps)
Slot-suc t i n p ps (le, (q, l, h)) =
    let s : n - i ≡ suc (n - (i + 1)) = omega arith in
    (omega arith, (q, ap (λ m. get_elem? (p ∷ ps) m) s ∙ l, h))

Slot-zero :
    (t : Proc → Bool) (i n : ℕ) (p : Proc) (ps : List Proc)
    → i ≡ n
    → t p ≡ true
    → (i ≤ n) × Slot t (n - i) (p ∷ ps)
Slot-zero t i n p ps e h =
    let z : n - i ≡ 0 = omega arith in (omega arith, (p, ap (λ m. get_elem? (p ∷ ps) m) z, h))

-- A search from index `i` on finds a slot at or behind `i` that passes the test.
pub find_from-Slot :
    (t : Proc → Bool) (i n : ℕ) (ps : List Proc)
    → find_from t i ps ≡ some n
    → (i ≤ n) × Slot t (n - i) ps
unfolding find_from
find_from-Slot t i n [] e = cc
find_from-Slot t i n (p ∷ ps) e = elim (Bool-cases (t p)) [
  | inl y ↦ Slot-zero t i n p ps (ground arith) y
  | inr n' ↦ Slot-suc t i n p ps (find_from-Slot t (i + 1) n ps (ground arith))
]

pub find_from-NoSlot :
    (t : Proc → Bool) (i : ℕ) (ps : List Proc) → find_from t i ps ≡ none → NoSlot t ps
unfolding find_from
find_from-NoSlot t i [] e = λ j q l. cc
find_from-NoSlot t i (p ∷ ps) e =
    NoSlot-cons t p ps (ground arith) (find_from-NoSlot t (i + 1) ps (ground arith))

-- A child of `cur`, and a child that is a zombie.
abbrev pub child_of : ℕ → Proc → Bool
child_of cur p = is_proc p.parent cur

abbrev pub dead_child : ℕ → Proc → Bool
dead_child cur p = is_proc p.parent cur && state_eq p.state zombie

pub find_child-dead :
    (cur i n : ℕ) (ps : List Proc)
    → (find_child cur i ps).1 ≡ some n
    → (i ≤ n) × Slot (dead_child cur) (n - i) ps
unfolding find_child
find_child-dead cur i n [] e = cc
find_child-dead cur i n (p ∷ ps) e = elim (Bool-cases (dead_child cur p)) [
  | inl y ↦ Slot-zero (dead_child cur) i n p ps (ground arith) y
  | inr n' ↦ Slot-suc (dead_child cur) i n p ps (find_child-dead cur (i + 1) n ps (ground arith))
]

pub find_child-none :
    (cur i : ℕ) (ps : List Proc) → (find_child cur i ps).1 ≡ none → NoSlot (dead_child cur) ps
unfolding find_child
find_child-none cur i [] e = λ j q l. cc
find_child-none cur i (p ∷ ps) e =
    NoSlot-cons (dead_child cur) p ps (ground arith) (find_child-none cur (i + 1) ps (ground arith))

-- Without a zombie, the scan tells whether there is a child.
pub find_child-havekids :
    (cur i : ℕ) (ps : List Proc) → (find_child cur i ps).0 ≡ false → NoSlot (child_of cur) ps
unfolding find_child
find_child-havekids cur i [] e = λ j q l. cc
find_child-havekids cur i (p ∷ ps) e =
    NoSlot-cons (child_of cur) p ps (ground arith)
      (find_child-havekids cur (i + 1) ps (ground arith))
