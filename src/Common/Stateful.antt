-- ===== src/Common/Stateful.antt =====
-- Calls that change a state and may fail: the state after the call, and its result. A call that
-- fails keeps what was done before it failed.
use xblob_emulator.Common.{Result, ok, err}

abbrev pub Stateful : Type 0 → Type 0 → Type 0
Stateful S A = S → S × Result A

-- `if (!r) return r.error();` followed by the rest.
infixl 5 ◌>>=◌ ◌>>◌
unfoldable pub ◌>>=◌ : {S A B : Type 0} → Stateful S A → (A → Stateful S B) → Stateful S B
m >>= k = λ s. let (s', r) = m s in elim r [ err e ↦ (s', err e) | ok a ↦ k a s' ]

unfoldable pub ◌>>◌ : {S A B : Type 0} → Stateful S A → Stateful S B → Stateful S B
m >> k = m >>= λ a. k

unfoldable pub pure : {S A : Type 0} → A → Stateful S A
pure a = λ s. (s, ok a)

unfoldable pub raise : {S A : Type 0} → Result A → Stateful S A
raise r = λ s. (s, r)

unfoldable pub gets : {S A : Type 0} → (S → A) → Stateful S A
gets f = λ s. (s, ok (f s))

unfoldable pub modify : {S : Type 0} → (S → S) → Stateful S (Unit {0})
modify f = λ s. (f s, ok tt)
