-- ===== src/Contract/Typed/Session.antt =====
-- crates/aelf-contract/src/lib.rs: the requests for descriptors in a session of calls on one `TokenContract`.
use aelf_web3_rust.Base.{
  ◌≡◌, refl, ◌∙◌, ℕ, zero, suc, ◌+◌, ◌≤◌, ◌<◌, List, [], ◌∷◌, length, take, Option, none, some,
  Option-cases, ◌⊎◌, inl, inr, ok, arith,
}
use aelf_web3_rust.Crypto.Crates.{Crates}
use aelf_web3_rust.Client.Action.{Provider}
use aelf_web3_rust.Client.Codec.{Codec}
use aelf_web3_rust.Contract.Reflect.{ContractResult, Reflect}
use aelf_web3_rust.Contract.Counting.{descriptors_counted}
use aelf_web3_rust.Contract.Dynamic.{DynamicContract, at_address}
use aelf_web3_rust.Contract.Typed.{Messages}
use aelf_web3_rust.Contract.Typed.Token.{
  get_balance, get_token_info, get_native_token_info, get_primary_token_symbol, transfer,
  cross_chain_transfer,
}
use aelf_web3_rust.Contract.Typed.Loads.{call-LoadsOnce, send-LoadsOnce, Cell}

below_suc :
    (P : ℕ → Type 0) (k : ℕ) → P 0 → ((j : ℕ) → j < k → P (suc j)) → (j : ℕ) → j < suc k → P j
below_suc P k first rest zero h = first
below_suc P k first rest (suc j) h = rest j (omega arith)

inner_suc :
    (P : ℕ → Type 0) (k : ℕ)
    → P 0
    → ((j : ℕ) → suc j < k → P (suc j))
    → (j : ℕ) → suc j < suc k
    → P j
inner_suc P k first rest zero h = first
inner_suc P k first rest (suc j) h = rest j (omega arith)

from_suc : (P : ℕ → Type 0) (k : ℕ) → ((j : ℕ) → k ≤ j → P (suc j)) → (j : ℕ) → suc k ≤ j → P j
from_suc P k rest zero h = absurd (omega arith)
from_suc P k rest (suc j) h = rest j (omega arith)

module _ {H W : Type 0} (provider : Provider H W) (codec : Codec) (crates : Crates)
    (reflect : Reflect) (messages : Messages) where
  abbrev p : Provider H (ℕ × W)
  p = descriptors_counted provider codec crates reflect

  abbrev TokenContract : Type 0
  TokenContract = Cell provider codec crates reflect

  open messages use {
    get_balance_input, get_token_info_input, transfer_input, cross_chain_transfer_input,
  }

  -- A call of a method of `TokenContract`.
  pub data TokenCall : Type 0 where
    balance : get_balance_input.Content → TokenCall
    info : get_token_info_input.Content → TokenCall
    native_info primary_symbol : TokenCall
    sent : transfer_input.Content → TokenCall
    sent_across : cross_chain_transfer_input.Content → TokenCall

  -- The contract and the state that a call leaves.
  abbrev pub left :
      {A : Type 0} → ContractResult H A × TokenContract × (ℕ × W) → TokenContract × (ℕ × W)
  left (r, self, s) = (self, s)

  abbrev pub make : TokenCall → TokenContract → ℕ × W → TokenContract × (ℕ × W)
  make (balance input) self s = left (get_balance p codec crates reflect messages input self s)
  make (info input) self s = left (get_token_info p codec crates reflect messages input self s)
  make native_info self s = left (get_native_token_info p codec crates reflect messages self s)
  make primary_symbol self s =
      left (get_primary_token_symbol p codec crates reflect messages self s)
  make (sent input) self s = left (transfer p codec crates reflect messages input self s)
  make (sent_across input) self s =
      left (cross_chain_transfer p codec crates reflect messages input self s)

  abbrev pub make_all : List TokenCall → TokenContract → ℕ × W → TokenContract × (ℕ × W)
  make_all [] self s = (self, s)
  make_all (c ∷ cs) self s = let (self', s') = make c self s in make_all cs self' s'

  on_empty :
      (c : TokenCall) (self : TokenContract) (n : ℕ) (w : W)
      → self.dynamic ≡ none
      → (make c self (n, w)).1.0 ≡ suc n
  unfolding get_balance get_token_info get_native_token_info get_primary_token_symbol transfer
      cross_chain_transfer
  on_empty (balance input) = (call-LoadsOnce provider codec crates reflect _ _ _).empty_cell
  on_empty (info input) = (call-LoadsOnce provider codec crates reflect _ _ _).empty_cell
  on_empty native_info = (call-LoadsOnce provider codec crates reflect _ _ _).empty_cell
  on_empty primary_symbol = (call-LoadsOnce provider codec crates reflect _ _ _).empty_cell
  on_empty (sent input) = (send-LoadsOnce provider codec crates reflect _ _).empty_cell
  on_empty (sent_across input) = (send-LoadsOnce provider codec crates reflect _ _).empty_cell

  on_full :
      (c : TokenCall) (self : TokenContract) (contract : DynamicContract reflect) (n : ℕ) (w : W)
      → self.dynamic ≡ some contract
      → ((make c self (n, w)).0.dynamic ≡ some contract) × ((make c self (n, w)).1.0 ≡ n)
  unfolding get_balance get_token_info get_native_token_info get_primary_token_symbol transfer
      cross_chain_transfer
  on_full (balance input) = (call-LoadsOnce provider codec crates reflect _ _ _).full_cell
  on_full (info input) = (call-LoadsOnce provider codec crates reflect _ _ _).full_cell
  on_full native_info = (call-LoadsOnce provider codec crates reflect _ _ _).full_cell
  on_full primary_symbol = (call-LoadsOnce provider codec crates reflect _ _ _).full_cell
  on_full (sent input) = (send-LoadsOnce provider codec crates reflect _ _).full_cell
  on_full (sent_across input) = (send-LoadsOnce provider codec crates reflect _ _).full_cell

  on_loaded :
      (c : TokenCall) (self : TokenContract) (contract : DynamicContract reflect) (n : ℕ) (w : W)
      → self.dynamic ≡ none
      → (at_address p codec crates reflect self.address self.wallet (n, w)).0 ≡ ok contract
      → (make c self (n, w)).0.dynamic ≡ some contract
  unfolding get_balance get_token_info get_native_token_info get_primary_token_symbol transfer
      cross_chain_transfer
  on_loaded (balance input) = (call-LoadsOnce provider codec crates reflect _ _ _).fills
  on_loaded (info input) = (call-LoadsOnce provider codec crates reflect _ _ _).fills
  on_loaded native_info = (call-LoadsOnce provider codec crates reflect _ _ _).fills
  on_loaded primary_symbol = (call-LoadsOnce provider codec crates reflect _ _ _).fills
  on_loaded (sent input) = (send-LoadsOnce provider codec crates reflect _ _).fills
  on_loaded (sent_across input) = (send-LoadsOnce provider codec crates reflect _ _).fills

  -- A request for the descriptors in this state gives no contract.
  abbrev pub AsksInVain : TokenContract × (ℕ × W) → Type 0
  AsksInVain (self, s) =
      (contract : DynamicContract reflect)
      → ¬ ((at_address p codec crates reflect self.address self.wallet s).0 ≡ ok contract)

  in_vain :
      (c : TokenCall) (self : TokenContract) (n : ℕ) (w : W)
      → self.dynamic ≡ none
      → (make c self (n, w)).0.dynamic ≡ none
      → AsksInVain (self, (n, w))
  in_vain c self n w e empty contract loaded =
      let full = on_loaded c self contract n w e loaded in cc

  -- What the cell holds after the first `j` of the calls.
  abbrev pub cell_after :
      List TokenCall → TokenContract → ℕ × W → ℕ → Option (DynamicContract reflect)
  cell_after calls self s j = (make_all (take j calls) self s).0.dynamic

  full_session :
      (calls : List TokenCall) (self : TokenContract) (contract : DynamicContract reflect) (n : ℕ)
      (w : W)
      → self.dynamic ≡ some contract
      → ((make_all calls self (n, w)).0.dynamic ≡ some contract)
        × ((make_all calls self (n, w)).1.0 ≡ n)
  full_session [] self contract n w e = (e, refl)
  full_session (c ∷ cs) self contract n w e =
      let (self', (n', w')) = make c self (n, w) in
      let (kept, same) = on_full c self contract n w e in
      let (held, none_asked) = full_session cs _ contract _ _ kept in (held, none_asked ∙ same)

  -- The first `k` of the calls find the cell empty and ask for the descriptors, all but the last of them in
  -- vain; where calls are left, they find one contract in it.
  abbrev pub AsksFirst : List TokenCall → TokenContract → ℕ → W → ℕ → Type 0
  AsksFirst calls self n w k =
      (k ≤ length calls)
      × ((make_all calls self (n, w)).1.0 ≡ n + k)
      × ((j : ℕ) → j < k → cell_after calls self (n, w) j ≡ none)
      × ((j : ℕ) → suc j < k → AsksInVain (make_all (take j calls) self (n, w)))
      × ((k ≡ length calls)
          ⊎ ((contract : DynamicContract reflect) × ((j : ℕ)
                → k ≤ j
                → cell_after calls self (n, w) j ≡ some contract)))

  -- A session of calls of the methods of a `TokenContract` whose cell is empty: the first `k` of the
  -- calls find the cell empty, the requests for descriptors are `k` in all, a request before any of
  -- these `k` calls but the last gives no contract, and either `k` is the number of all calls or every
  -- later call finds one and the same contract in the cell.
  pub token_session :
      (calls : List TokenCall) (self : TokenContract) (n : ℕ) (w : W)
      → self.dynamic ≡ none
      → (k : ℕ) × AsksFirst calls self n w k
  token_session [] self n w e = (
    0,
    (omega arith, omega arith, λ j h. absurd (omega arith), λ j h. absurd (omega arith), inl refl),
  )
  token_session (c ∷ cs) self n w e =
      let self' = (make c self (n, w)).0 in
      let n' = (make c self (n, w)).1.0 in
      let w' = (make c self (n, w)).1.1 in
      let asked : n' ≡ suc n = on_empty c self n w e in
      let cell = cell_after (c ∷ cs) self (n, w) in
      elim (Option-cases self'.dynamic) [
        | inl empty ↦
            let (k, (le, total, before, vain, after)) = token_session cs self' n' w' empty in
            (
              suc k,
              (
                omega arith,
                omega arith,
                below_suc (λ j. cell j ≡ none) k e before,
                inner_suc (λ j. AsksInVain (make_all (take j (c ∷ cs)) self (n, w))) k
                    (in_vain c self n w e empty) vain,
                elim after [
                  | inl all ↦ inl (omega arith)
                  | inr (contract, held) ↦
                      inr (contract, from_suc (λ j. cell j ≡ some contract) k held)
                ],
              ),
            )
        | inr (contract, full) ↦
            let (held, same) = full_session cs self' contract n' w' full in
            (
              1,
              (
                omega arith,
                omega arith,
                below_suc (λ j. cell j ≡ none) 0 e (λ j h. absurd (omega arith)),
                λ j h. absurd (omega arith),
                inr (
                  contract,
                  from_suc (λ j. cell j ≡ some contract) 0
                      (λ j h. (full_session (take j cs) self' contract n' w' full).0),
                ),
              ),
            )
      ]
