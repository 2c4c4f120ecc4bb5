-- ===== src/Contract/Typed/Kept.antt =====
-- crates/aelf-contract/src/lib.rs: the requests that are counted for a wrapper's method, as part of a program.
use aelf_web3_rust.Base.{
  ◌≡◌, refl, subst, ap, ok-injective, Bool, ℕ, ◌+◌, ◌≤◌, Option-cases, some, inl, inr, Result, ok,
  err, panic, map_ok, arith,
}
use aelf_web3_rust.Base.Text.{Text, Bytes}
use aelf_web3_rust.Crypto.Crates.{Crates}
use aelf_web3_rust.Client.Action.{Provider}
use aelf_web3_rust.Client.Codec.{Codec}
use aelf_web3_rust.Client.Counting.{Counts, IsQuiet, Priced, counting}
use aelf_web3_rust.Client.Counting.Services.{Ignores}
use aelf_web3_rust.Client.Service.{get_contract_file_descriptor_set}
use aelf_web3_rust.Contract.Reflect.{ContractResult, Reflect}
use aelf_web3_rust.Contract.Counting.{at_address-Counts, call_typed-IsQuiet}
use aelf_web3_rust.Contract.Dynamic.{
  ContractAction, DynamicContract, at_address, fill, get_dynamic, call_typed,
}
use aelf_web3_rust.Contract.Typed.{Lazy, continue_with, call, kept}

module _ {H W : Type 0} (counts : Text → Bool) (provider : Priced H W) (codec : Codec)
    (crates : Crates) (reflect : Reflect) (ignores : Ignores counts) where
  abbrev p : Provider H (ℕ × W)
  p = counting counts provider

  abbrev pub Cell : Type 0
  Cell = Lazy p codec crates reflect

  abbrev Contract : Type 0
  Contract = DynamicContract reflect

  -- The cell is full.
  abbrev pub Holds : Cell → Type 0
  Holds self = (contract : Contract) × (self.dynamic ≡ some contract)

  abbrev Loaded : Type 0
  Loaded = ContractResult H Contract × (ℕ × W)

  abbrev Use : Type 0 → Type 0
  Use A = Contract → ContractAction H (ℕ × W) A

  filled-Counts :
      {A : Type 0} (most n : ℕ) (self : Cell) (r : Loaded) (f : Use A)
      → ((contract : Contract) → IsQuiet (f contract))
      → n ≤ r.1.0
      → r.1.0 ≤ n + most
      → let m = continue_with p codec crates reflect (fill p codec crates reflect self r) f in
        (n + 0 ≤ m.2.0) × (m.2.0 ≤ n + most)
  filled-Counts most n self (ok contract, (n', w)) f quiet low high =
      let (low', high') = (quiet contract).at n' w in (omega arith, omega arith)
  filled-Counts most n self (err e, s) f quiet low high = (omega arith, omega arith)
  filled-Counts most n self (panic, s) f quiet low high = (omega arith, omega arith)

  pub call-Counts :
      {M : Type 0} (most : ℕ) (decode : Bytes → Result Text M) (name : Text) (input : Bytes)
      (self : Cell)
      → Counts 0 most (get_contract_file_descriptor_set p codec self.address)
      → Counts 0 most
          (kept p codec crates reflect (call p codec crates reflect decode name input) self)
  unfolding call get_dynamic
  call-Counts {M = M} most decode name input self asks = record {
    at = λ n w.
        let after : Use M =
          λ contract. call_typed p codec crates reflect decode contract name input in
        let quiet = λ (contract : Contract).
          call_typed-IsQuiet counts provider codec crates reflect ignores decode contract name
            input in
        let (low, high) =
          (at_address-Counts counts provider codec crates reflect ignores 0 most self.address
              self.wallet asks).at
            n w in
        elim (Option-cases self.dynamic) [
          | inl empty ↦
              simp (get_dynamic, empty)
                (filled-Counts most n self
                  (at_address p codec crates reflect self.address self.wallet (n, w)) after quiet
                  (omega arith) high)
          | inr (contract, full) ↦
              let (low', high') = (quiet contract).at n w in
              simp (get_dynamic, full) (omega arith, omega arith)
        ];
  }

  -- A full cell makes no request for descriptors.
  pub call-IsQuiet :
      {M : Type 0} (decode : Bytes → Result Text M) (name : Text) (input : Bytes) (self : Cell)
      → Holds self
      → IsQuiet (kept p codec crates reflect (call p codec crates reflect decode name input) self)
  unfolding call get_dynamic
  call-IsQuiet decode name input self (contract, full) = record {
    at = λ n w.
        let (low, high) =
          (call_typed-IsQuiet counts provider codec crates reflect ignores decode contract name
              input).at
            n w in
        simp (get_dynamic, full) (omega arith, omega arith);
  }

  -- A contract with the result of a method, and a full one.
  holding :
      {A : Type 0} (contract : Contract) (self self' : Cell) (q : ContractResult H A) (a : A)
      → self.dynamic ≡ some contract
      → map_ok {B = A × Cell} (λ b. (b, self)) q ≡ ok (a, self')
      → Holds self'
  holding {A = A} contract self self' (ok b) a full h = (
    contract,
    subst (λ (c : Cell). c.dynamic ≡ some contract) (ap (λ (x : A × Cell). x.1) (ok-injective h))
        full,
  )
  holding contract self self' (err e) a full h = cc
  holding contract self self' panic a full h = cc

  filled-Holds :
      {A : Type 0} (self self' : Cell) (r : Loaded) (f : Use A) (a : A)
      → map_ok {B = A × Cell}
          (λ b.
            (b, (continue_with p codec crates reflect (fill p codec crates reflect self r) f).1))
          (continue_with p codec crates reflect (fill p codec crates reflect self r) f).0
        ≡ ok (a, self')
      → Holds self'
  filled-Holds self self' (ok contract, s) f a h =
      holding contract (record self { dynamic = some contract }) self' (f contract s).0 a refl h
  filled-Holds self self' (err e, s) f a h = cc
  filled-Holds self self' (panic, s) f a h = cc

  -- A method that succeeds leaves a full cell.
  pub call-Holds :
      {M : Type 0} (decode : Bytes → Result Text M) (name : Text) (input : Bytes)
      (self self' : Cell) (s : ℕ × W) (a : M)
      → (kept p codec crates reflect (call p codec crates reflect decode name input) self s).0
        ≡ ok (a, self')
      → Holds self'
  unfolding call get_dynamic
  call-Holds {M = M} decode name input self self' s a h =
      let after : Use M =
        λ contract. call_typed p codec crates reflect decode contract name input in
      elim (Option-cases self.dynamic) [
        | inl empty ↦
            filled-Holds self self' (at_address p codec crates reflect self.address self.wallet s)
              after a (simp (get_dynamic, empty) at h)
        | inr (contract, full) ↦
            holding contract self self' (after contract s).0 a full (simp (get_dynamic, full) at h)
      ]
