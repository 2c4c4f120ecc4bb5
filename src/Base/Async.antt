-- ===== src/Base/Async.antt =====
-- An `async` function that can fail: a function of the state that it shares with the rest of the program.
use aelf_web3_rust.Base.Outcome.{Result, ok, err, panic}

abbrev pub Async : Type 0 → Type 0 → Type 0 → Type 0
Async E W A = W → Result E A × W

abbrev pub continue : {E W A B : Type 0} → Result E A × W → (A → Async E W B) → Result E B × W
continue (ok a, w) f = f a w
continue (err e, w) f = (err e, w)
continue (panic, w) f = (panic, w)

infixl 5 ◌>>=◌ ◌>>◌
abbrev pub ◌>>=◌ : {E W A B : Type 0} → Async E W A → (A → Async E W B) → Async E W B
m >>= f = λ w. continue (m w) f

abbrev pub ◌>>◌ : {E W B : Type 0} → Async E W (Unit {0}) → Async E W B → Async E W B
m >> k = m >>= λ _. k

-- A step that leaves the state alone.
abbrev pub lift : {E W A : Type 0} → Result E A → Async E W A
lift r w = (r, w)
