-- ===== src/Contract/Dynamic/Missing.antt =====
-- crates/aelf-contract/src/lib.rs: calls of a method that a contract does not have.
use aelf_web3_rust.Base.{
  ◌≡◌, List, [], ◌∷◌, ◌++◌, flatten, inl, inr, Option-cases, Result, err, All,
}
use aelf_web3_rust.Base.Text.{Text, Bytes}
use aelf_web3_rust.Base.Json.{Value}
use aelf_web3_rust.Crypto.Crates.{Crates}
use aelf_web3_rust.Client.Action.{Provider}
use aelf_web3_rust.Client.Codec.{Codec}
use aelf_web3_rust.Contract.Reflect.{ContractError, method_not_found, Reflect}
use aelf_web3_rust.Contract.Dynamic.{
  DynamicContract, find_in_services, method_of, call_typed, send_typed,
}
use aelf_web3_rust.Contract.Dynamic.Lookup.{Other, IsFirst, find_in_services-Found}
use aelf_web3_rust.Contract.Dynamic.Json.{call_json, send_json}

module _ (reflect : Reflect) where
  open reflect use {MethodDescriptor, services}

  not-Other :
      (name : Text) (before after : List MethodDescriptor) (m : MethodDescriptor)
      → reflect.method_name m ≡ name
      → ¬ All (Other reflect name) (before ++ m ∷ after)
  not-Other name [] after m named (other, others) = other named
  not-Other name (x ∷ before) after m named (other, others) =
      not-Other name before after m named others

  method_of-missing :
      {H : Type 0} (self : DynamicContract reflect) (name : Text)
      → All (Other reflect name) (flatten (services self.pool))
      → method_of reflect {H = H} self name ≡ err (method_not_found name)
  unfolding method_of
  method_of-missing self name missing =
      elim (Option-cases (find_in_services reflect name (services self.pool))) [
        | inl e ↦ rw (method_of, e)
        | inr (m, e) ↦
            let (before, after, split, others, named) : IsFirst reflect name
                (flatten (services self.pool)) m =
              rw e at (find_in_services-Found reflect name (services self.pool)) in
            absurd (not-Other name before after m named (rw split at missing))
      ]

module _ {H W : Type 0} (provider : Provider H W) (codec : Codec) (crates : Crates)
    (reflect : Reflect) where
  -- For a name that no method of the contract's services has, `call_typed`, `send_typed`, `call_json`
  -- and `send_json` fail with the error that names it, and leave the state as it is: no request is
  -- made.
  pub method_not_found_lem :
      {M : Type 0} (decode : Bytes → Result Text M) (self : DynamicContract reflect) (name : Text)
      (input : Bytes) (value : Value) (w : W)
      → All (Other reflect name) (flatten (reflect.services self.pool))
      → let error : ContractError H = method_not_found name in
        (call_typed provider codec crates reflect decode self name input w ≡ (err error, w))
        × (send_typed provider codec crates reflect self name input w ≡ (err error, w))
        × (call_json provider codec crates reflect self name value w ≡ (err error, w))
        × (send_json provider codec crates reflect self name value w ≡ (err error, w))
  unfolding call_typed send_typed call_json send_json
  method_not_found_lem decode self name input value w missing =
      let e = method_of-missing reflect {H = H} self name missing in (rw e, rw e, rw e, rw e)
