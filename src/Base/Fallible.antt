-- ===== src/Base/Fallible.antt =====
-- Code that changes a state of type `S` and may end in undefined behaviour or a crash, which is
-- `none`. A method of the program is a value of `M S A`.
use mathlib.Core.Path.{◌≡◌, refl}
use mathlib.Core.Bool.{Bool, true, false}
use mathlib.Core.Option.{Option, none, some}

abbrev pub M : Type 0 → Type 0 → Type 0
M S A = S → Option (A × S)

abbrev pub pure : {S A : Type 0} → A → M S A
pure a s = some (a, s)

-- Undefined behaviour, an exception that nobody catches, or a dead process.
abbrev pub fault : {S A : Type 0} → M S A
fault s = none

-- A call of the operating system or of a library.
abbrev pub call : {S A : Type 0} → (S → A × S) → M S A
call f s = some (f s)

-- A call that only changes the state.
abbrev pub act : {S : Type 0} → (S → S) → M S (Unit {0})
act f s = some (tt, f s)

-- A look at the state.
abbrev pub look : {S A : Type 0} → (S → A) → M S A
look f s = some (f s, s)

infixl 5 ◌>>=◌ ◌>>◌
abbrev pub ◌>>=◌ : {S A B : Type 0} → M S A → (A → M S B) → M S B
◌>>=◌ m f s = elim (m s) [ none ↦ none | some (a, t) ↦ f a t ]

abbrev pub ◌>>◌ : {S A B : Type 0} → M S A → M S B → M S B
m >> k = m >>= λ _. k

-- `a || b` on calls: the second is made only if the first gives false.
abbrev pub or_call : {S : Type 0} → M S Bool → M S Bool → M S Bool
or_call a b = a >>= λ r. elim r [ true ↦ pure true | false ↦ b ]

-- One step of a run.
pub >>=-run :
    {S A B : Type 0} (m : M S A) (f : A → M S B) {s t : S} {a : A}
    → m s ≡ some (a, t)
    → (m >>= f) s ≡ f a t
>>=-run m f e = rw (e, ◌>>=◌)

pub >>=-fault :
    {S A B : Type 0} (m : M S A) (f : A → M S B) {s : S} → m s ≡ none → (m >>= f) s ≡ none
>>=-fault m f e = rw (e, ◌>>=◌)

-- Two calls that do the same from a state, before the same rest.
pub >>=-same :
    {S A B : Type 0} (m m' : M S A) (f : A → M S B) {s : S}
    → m s ≡ m' s
    → (m >>= f) s ≡ (m' >>= f) s
>>=-same m m' f e = rw (e, ◌>>=◌) refl

-- Inversion of a run that ends.
pub >>=-eq-some :
    {S A B : Type 0} (m : M S A) (f : A → M S B) {s : S} {r : B × S}
    → (m >>= f) s ≡ some r
    → (a : A) × (t : S) × (m s ≡ some (a, t)) × (f a t ≡ some r)
>>=-eq-some {S} {A} {B} m f {s} {r} h = split (m s) refl h
  where
    split :
        (o : Option (A × S))
        → m s ≡ o
        → ◌≡◌ {A = Option (B × S)} (elim o [ none ↦ none | some (a, t) ↦ f a t ]) (some r)
        → (a : A) × (t : S) × (m s ≡ some (a, t)) × (f a t ≡ some r)
    split none e k = cc
    split (some (a, t)) e k = (a, t, e, k)
