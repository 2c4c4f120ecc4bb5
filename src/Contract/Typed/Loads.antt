-- ===== src/Contract/Typed/Loads.antt =====
-- crates/aelf-contract/src/lib.rs: when a method of a wrapper asks for descriptors.
use aelf_web3_rust.Base.{
  ◌≡◌, refl, ap, ok-injective, ◌∙◌, ℕ, suc, none, some, Result, ok, err, panic, arith,
}
use aelf_web3_rust.Base.Text.{Text, Bytes}
use aelf_web3_rust.Crypto.Crates.{Crates}
use aelf_web3_rust.Client.Action.{Provider}
use aelf_web3_rust.Client.Codec.{Codec}
use aelf_web3_rust.Client.Counting.{IsQuiet, by_call}
use aelf_web3_rust.Contract.Reflect.{ContractResult, Reflect}
use aelf_web3_rust.Contract.Counting.{
  descriptors_counted, is_descriptor_path, descriptor-Ignores, not_sending, descriptors-Counts,
  at_address-Counts, call_typed-IsQuiet, send_typed-IsQuiet,
}
use aelf_web3_rust.Contract.Dynamic.{
  ContractAction, DynamicContract, at_address, fill, get_dynamic, call_typed, send_typed,
}
use aelf_web3_rust.Contract.Typed.{Lazy, LazyAction, continue_with, call, send}

module _ {H W : Type 0} (provider : Provider H W) (codec : Codec) (crates : Crates)
    (reflect : Reflect) where
  abbrev p : Provider H (ℕ × W)
  p = descriptors_counted provider codec crates reflect

  abbrev pub Cell : Type 0
  Cell = Lazy p codec crates reflect

  -- A method asks for the descriptors exactly where the cell is empty, keeps a full cell, and leaves the
  -- contract in an empty one where it is loaded.
  pub record LoadsOnce {A : Type 0} (m : LazyAction p codec crates reflect A) : Type 0 where
    pub empty_cell :
        (self : Cell) (n : ℕ) (w : W) → self.dynamic ≡ none → (m self (n, w)).2.0 ≡ suc n
    pub full_cell :
        (self : Cell) (contract : DynamicContract reflect) (n : ℕ) (w : W)
        → self.dynamic ≡ some contract
        → ((m self (n, w)).1.dynamic ≡ some contract) × ((m self (n, w)).2.0 ≡ n)
    pub fills :
        (self : Cell) (contract : DynamicContract reflect) (n : ℕ) (w : W)
        → self.dynamic ≡ none
        → (at_address p codec crates reflect self.address self.wallet (n, w)).0 ≡ ok contract
        → (m self (n, w)).1.dynamic ≡ some contract

  after_fill :
      {A : Type 0} (self : Cell) (r : ContractResult H (DynamicContract reflect) × (ℕ × W))
      (f : DynamicContract reflect → ContractAction H (ℕ × W) A)
      → ((contract : DynamicContract reflect) → IsQuiet (f contract))
      → (continue_with p codec crates reflect (fill p codec crates reflect self r) f).2.0 ≡ r.1.0
  after_fill self (ok contract, (n, w)) f quiet =
      let (low, high) = (quiet contract).at n w in omega arith
  after_fill self (err e, s) f quiet = refl
  after_fill self (panic, s) f quiet = refl

  fill-keeps :
      {A : Type 0} (self : Cell) (r : ContractResult H (DynamicContract reflect) × (ℕ × W))
      (f : DynamicContract reflect → ContractAction H (ℕ × W) A)
      (contract : DynamicContract reflect)
      → r.0 ≡ ok contract
      → (continue_with p codec crates reflect (fill p codec crates reflect self r) f).1.dynamic
        ≡ some contract
  fill-keeps self (ok loaded, s) f contract h = ap some (ok-injective h)
  fill-keeps self (err e, s) f contract h = cc
  fill-keeps self (panic, s) f contract h = cc

  continue_with-LoadsOnce :
      {A : Type 0} (f : DynamicContract reflect → ContractAction H (ℕ × W) A)
      → ((contract : DynamicContract reflect) → IsQuiet (f contract))
      → LoadsOnce (λ self s.
        continue_with p codec crates reflect (get_dynamic p codec crates reflect self s) f)
  unfolding get_dynamic
  continue_with-LoadsOnce f quiet = record {
    empty_cell = λ self n w e.
        let loading = at_address p codec crates reflect self.address self.wallet (n, w) in
        let (low, high) =
          (at_address-Counts is_descriptor_path (by_call provider) codec crates reflect
              descriptor-Ignores 1 1 self.address self.wallet
              (descriptors-Counts provider codec crates reflect self.address)).at
            n w in
        let asked : loading.1.0 ≡ suc n = omega arith in
        simp (get_dynamic, e) (after_fill self loading f quiet ∙ asked);
    full_cell = λ self contract n w e.
        let (low, high) = (quiet contract).at n w in
        (simp (get_dynamic, e), simp (get_dynamic, e) (omega arith));
    fills = λ self contract n w e h.
        simp (get_dynamic, e)
          (fill-keeps self (at_address p codec crates reflect self.address self.wallet (n, w)) f
            contract h);
  }

  pub call-LoadsOnce :
      {M : Type 0} (decode : Bytes → Result Text M) (name : Text) (input : Bytes)
      → LoadsOnce (call p codec crates reflect decode name input)
  unfolding call
  call-LoadsOnce decode name input =
      continue_with-LoadsOnce
        (λ contract. call_typed p codec crates reflect decode contract name input)
        (λ contract.
          call_typed-IsQuiet is_descriptor_path (by_call provider) codec crates reflect
            descriptor-Ignores decode contract name input)

  pub send-LoadsOnce :
      (name : Text) (input : Bytes) → LoadsOnce (send p codec crates reflect name input)
  unfolding send
  send-LoadsOnce name input =
      continue_with-LoadsOnce (λ contract. send_typed p codec crates reflect contract name input)
        (λ contract.
          send_typed-IsQuiet is_descriptor_path (by_call provider) codec crates reflect
            descriptor-Ignores not_sending contract name input)
