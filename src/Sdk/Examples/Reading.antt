-- ===== src/Sdk/Examples/Reading.antt =====
-- crates/aelf-sdk/examples: the requests of basic_client, public_balance and dynamic_contract_get_balance.
use aelf_web3_rust.Base.{
  ◌≡◌, refl, ℕ, ◌+◌, ◌++◌, Bool, false, Result, map_err-eq-ok, list_eq, arith,
}
use aelf_web3_rust.Base.Async.{Async, ◌>>=◌}
use aelf_web3_rust.Base.Text.{Text, Bytes, codes}
use aelf_web3_rust.Crypto.Crates.{Crates}
use aelf_web3_rust.Client.Action.{Provider}
use aelf_web3_rust.Client.Codec.{Codec}
use aelf_web3_rust.Client.Service.{api_base, get_contract_file_descriptor_set}
use aelf_web3_rust.Client.Counting.{
  Counts, IsQuiet, Priced, by_call, counting, Counts-weaken, quiet_then, then_quiet,
  bind_result-Counts, lift-IsQuiet, bind-IsQuiet,
}
use aelf_web3_rust.Client.Counting.Services.{
  Ignores, get_chain_status-IsQuiet, get_contract_address_by_name-IsQuiet,
}
use aelf_web3_rust.Contract.Reflect.{Reflect}
use aelf_web3_rust.Contract.Dynamic.{ContractAction, new_lazy}
use aelf_web3_rust.Contract.Typed.{call, kept}
use aelf_web3_rust.Contract.Counting.{
  at_address-Counts, call_json-IsQuiet, is_descriptor_path, descriptor-Ignores, descriptors-Counts,
  descriptors-IsQuiet,
}
use aelf_web3_rust.Contract.Typed.{Messages}
use aelf_web3_rust.Contract.Typed.Token.{new_token_contract, get_balance, get_native_token_info}
use aelf_web3_rust.Contract.Typed.Kept.{Cell, Holds, call-Counts, call-IsQuiet, call-Holds}
use aelf_web3_rust.Sdk.Examples.{contract, ExampleError, Environment, Effects, from_contract}
use aelf_web3_rust.Sdk.Examples.ReadOnly.{
  TokenMessages, basic_client_main, public_balance_main, dynamic_get_balance_main,
}
use aelf_web3_rust.Sdk.Examples.Sending.{counted_effects, from_client-IsQuiet, println-IsQuiet}
use aelf_web3_rust.Sdk.Examples.Parts.{is_sending, sending-Ignores}

module _ {H W : Type 0} where
  from_contract-Counts :
      {A : Type 0} (least most : ℕ) (m : ContractAction H (ℕ × W) A)
      → Counts least most m
      → Counts least most (from_contract m)
  from_contract-Counts least most m h = record { at = λ n w. h.at n w }

  from_contract-IsQuiet :
      {A : Type 0} (m : ContractAction H (ℕ × W) A) → IsQuiet m → IsQuiet (from_contract m)
  from_contract-IsQuiet m h = from_contract-Counts 0 0 m h

ruleset reading_rules =
    (lift-IsQuiet, bind-IsQuiet, from_client-IsQuiet, from_contract-IsQuiet, println-IsQuiet)

module _ {H W : Type 0} (counts : Text → Bool) (ignores : Ignores counts) (codec : Codec)
    (crates : Crates) (reflect : Reflect) (messages : Messages)
    (token_messages : TokenMessages messages) (environment : Environment H codec.Float)
    (effects : Effects W) (provider : Text → Priced H W) where
  abbrev p : Text → Provider H (ℕ × W)
  p endpoint = counting counts (provider endpoint)

  abbrev e : Effects (ℕ × W)
  e = counted_effects effects

  basic_client-IsQuiet :
      IsQuiet (basic_client_main codec crates reflect messages token_messages environment e p)
  unfolding basic_client_main
  basic_client-IsQuiet = bind-IsQuiet _ _ (lift-IsQuiet _) λ u.
      bind-IsQuiet _ _
        (from_client-IsQuiet _ (get_chain_status-IsQuiet counts (provider _) codec crates ignores))
        (λ status. println-IsQuiet effects _)

  -- The first method of a wrapper in a program: what follows finds the cell full.
  call_then :
      {M B : Type 0} (most : ℕ) (endpoint : Text) (decode : Bytes → Result Text M) (name : Text)
      (input : Bytes) (self : Cell counts (provider endpoint) codec crates reflect ignores)
      (f : M × Cell counts (provider endpoint) codec crates reflect ignores
        → Async (ExampleError H) (ℕ × W) B)
      → Counts 0 most (get_contract_file_descriptor_set (p endpoint) codec self.address)
      → ((x : M × Cell counts (provider endpoint) codec crates reflect ignores)
          → Holds counts (provider endpoint) codec crates reflect ignores x.1
          → IsQuiet (f x))
      → Counts 0 most (
          from_contract (
            kept
              (p endpoint)
              codec
              crates
              reflect
              (call (p endpoint) codec crates reflect decode name input)
              self)
          >>= f)
  call_then most endpoint decode name input self f asks rest =
      let q = provider endpoint in
      let same : most + 0 ≡ most = omega arith in
      rw same at (
        bind_result-Counts {P = λ x. Holds counts q codec crates reflect ignores x.1} 0 most 0 _ f
          (from_contract-Counts 0 most _
            (call-Counts counts q codec crates reflect ignores most decode name input self asks))
          (λ s x h.
            call-Holds counts q codec crates reflect ignores decode name input self x.1 s x.0
              (map_err-eq-ok contract _ h))
          rest)

  module _ (most : ℕ)
      (asks : (endpoint address : Text)
        → Counts 0 most (get_contract_file_descriptor_set (p endpoint) codec address)) where
    public_balance-Counts :
        Counts 0 most
          (public_balance_main codec crates reflect messages token_messages environment e p)
    unfolding public_balance_main get_native_token_info get_balance new_token_contract new_lazy
    public_balance-Counts =
        search
          (
            reading_rules, quiet_then, get_contract_address_by_name-IsQuiet, ignores, call_then,
            call-IsQuiet, asks,
          )
          depth 60

    dynamic_get_balance-Counts :
        Counts 0 most
          (dynamic_get_balance_main codec crates reflect messages token_messages environment e p)
    unfolding dynamic_get_balance_main
    dynamic_get_balance-Counts =
        search
          (
            reading_rules, quiet_then, then_quiet, from_contract-Counts, at_address-Counts,
            call_json-IsQuiet, ignores, asks,
          )
          depth 60

    programs-Counts :
        IsQuiet (basic_client_main codec crates reflect messages token_messages environment e p)
        × Counts 0 most
            (public_balance_main codec crates reflect messages token_messages environment e p)
        × Counts 0 most
            (dynamic_get_balance_main codec crates reflect messages token_messages environment e p)
    programs-Counts = (basic_client-IsQuiet, public_balance-Counts, dynamic_get_balance-Counts)

-- The requests for descriptors are not those that send.
descriptors_unsent : is_sending (api_base ++ codes "/contractFileDescriptorSet") ≡ false
unfolding list_eq
descriptors_unsent = refl

module _ {H W : Type 0} (codec : Codec) (crates : Crates) (reflect : Reflect) (messages : Messages)
    (token_messages : TokenMessages messages) (environment : Environment H codec.Float)
    (effects : Effects W) (provider : Text → Provider H W) where
  abbrev e' : Effects (ℕ × W)
  e' = counted_effects effects

  -- The programs over a provider that counts the requests of a kind.
  abbrev pub counted_basic : (Text → Bool) → Async (ExampleError H) (ℕ × W) (Unit {0})
  counted_basic counts =
      basic_client_main codec crates reflect messages token_messages environment e'
        (λ endpoint. counting counts (by_call (provider endpoint)))

  abbrev pub counted_balance : (Text → Bool) → Async (ExampleError H) (ℕ × W) (Unit {0})
  counted_balance counts =
      public_balance_main codec crates reflect messages token_messages environment e'
        (λ endpoint. counting counts (by_call (provider endpoint)))

  abbrev pub counted_dynamic : (Text → Bool) → Async (ExampleError H) (ℕ × W) (Unit {0})
  counted_dynamic counts =
      dynamic_get_balance_main codec crates reflect messages token_messages environment e'
        (λ endpoint. counting counts (by_call (provider endpoint)))

  -- Whatever the environment and the node's answers are, none of the three examples that read makes a
  -- request that sends a transaction; basic_client makes no call of the provider that asks for
  -- descriptors, and public_balance, which calls two methods of a token contract, and
  -- dynamic_contract_get_balance make at most one.
  pub readonly_requests :
      (IsQuiet (counted_basic is_sending)
        × IsQuiet (counted_balance is_sending)
        × IsQuiet (counted_dynamic is_sending))
      × IsQuiet (counted_basic is_descriptor_path)
      × Counts 0 1 (counted_balance is_descriptor_path)
      × Counts 0 1 (counted_dynamic is_descriptor_path)
  readonly_requests =
      let unsent : (endpoint address : Text)
          → IsQuiet (
              get_contract_file_descriptor_set (counting is_sending (by_call (provider endpoint)))
                codec address) =
        λ endpoint address.
          descriptors-IsQuiet is_sending (by_call (provider endpoint)) codec address
            descriptors_unsent in
      let once : (endpoint address : Text)
          → Counts 0 1 (
              get_contract_file_descriptor_set
                (counting is_descriptor_path (by_call (provider endpoint))) codec address) =
        λ endpoint address.
          Counts-weaken 1 0 1 1 _ (omega arith) (omega arith)
            (descriptors-Counts (provider endpoint) codec crates reflect address) in
      let (basic, balance, dynamic) =
        programs-Counts is_sending sending-Ignores.builds codec crates reflect messages
          token_messages environment effects (λ endpoint. by_call (provider endpoint)) 0 unsent in
      let (basic', balance', dynamic') =
        programs-Counts is_descriptor_path descriptor-Ignores codec crates reflect messages
          token_messages environment effects (λ endpoint. by_call (provider endpoint)) 1 once in
      ((basic, balance, dynamic), basic', balance', dynamic')
