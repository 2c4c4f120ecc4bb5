-- ===== src/Client/Dto/Fees.antt =====
-- crates/aelf-client/src/dto/mod.rs: the fees of a transaction result.
use aelf_web3_rust.Base.{
  ◌≡◌, refl, ap, ◌∙◌, List, [], ◌∷◌, Option, none, some, list_eq, list_eq_refl, list_eq→eq,
  Bool-cases, inl, inr, Result, ok, err, panic, if◌then◌else◌, arith,
}
use aelf_web3_rust.Base.Text.{Text, Bytes, codes}
use aelf_web3_rust.Base.Word.{ℤ}
use aelf_web3_rust.Client.Dto.{
  HashMap, lookup, insert, LogEventDto, TransactionResultDto, ChargedEvent, add_event, add_bytes,
  add_log, add_logs, get_transaction_fees,
}

list_eq-sym : (s t : Text) → list_eq s t ≡ list_eq t s
unfolding list_eq
list_eq-sym [] [] = refl
list_eq-sym [] (d ∷ t) = refl
list_eq-sym (c ∷ s) [] = refl
list_eq-sym (c ∷ s) (d ∷ t) = ground (arith, list_eq-sym s t)

pub lookup-insert :
    {A : Type 0} (m : HashMap A) (key k : Text) (a : A)
    → lookup key (insert m k a) ≡ (if list_eq key k then some a else lookup key m)
unfolding lookup insert
lookup-insert [] key k a = refl
lookup-insert ((k', b) ∷ m) key k a = elim (Bool-cases (list_eq k k')) [
  | inl e ↦ let same : k ≡ k' = list_eq→eq k k' e in rw (same, list_eq_refl k') (ground arith)
  | inr e ↦ rw e (elim (Bool-cases (list_eq key k')) [
    | inl e' ↦
        let same : key ≡ k' = list_eq→eq key k' e' in
        rw (same, list_eq_refl k') (rw (list_eq-sym k' k, e) refl)
    | inr e' ↦ rw e' (lookup-insert m key k a)
  ])
]

module _ (base64_decode : Text → Result Text Bytes)
    (decode_fee decode_resource : Bytes → Result Text ChargedEvent) where
  abbrev event_of : Result Text ChargedEvent → Option ChargedEvent
  event_of (ok event) = some event
  event_of (err _) = none
  event_of panic = none

  abbrev event_in : Result Text Bytes → (Bytes → Result Text ChargedEvent) → Option ChargedEvent
  event_in (ok bytes) decode = event_of (decode bytes)
  event_in (err _) decode = none
  event_in panic decode = none

  -- The charge that a log records, if it is one of the two events and is well formed.
  abbrev pub charge_of : LogEventDto → Option ChargedEvent
  charge_of log =
      if list_eq log.name (codes "TransactionFeeCharged")
      then event_in (base64_decode log.non_indexed) decode_fee
      else if list_eq log.name (codes "ResourceTokenCharged")
      then event_in (base64_decode log.non_indexed) decode_resource
      else none

  abbrev amount_for : Text → Option ChargedEvent → Option ℤ
  amount_for symbol none = none
  amount_for symbol (some event) = if list_eq symbol event.symbol then some event.amount else none

  abbrev or_earlier : Option ℤ → Option ℤ → Option ℤ
  or_earlier (some amount) earlier = some amount
  or_earlier none earlier = earlier

  -- The amount of the last charge in a symbol.
  abbrev pub last_charge : Text → List LogEventDto → Option ℤ
  last_charge symbol [] = none
  last_charge symbol (log ∷ logs) =
      or_earlier (last_charge symbol logs) (amount_for symbol (charge_of log))

  lookup-add_event :
      (symbol : Text) (m : HashMap ℤ) (event : Result Text ChargedEvent)
      → lookup symbol (add_event base64_decode decode_fee decode_resource m event)
        ≡ or_earlier (amount_for symbol (event_of event)) (lookup symbol m)
  lookup-add_event symbol m (ok event) =
      lookup-insert m symbol event.symbol event.amount ∙ ground arith
  lookup-add_event symbol m (err e) = refl
  lookup-add_event symbol m panic = refl

  lookup-add_bytes :
      (symbol : Text) (m : HashMap ℤ) (decode : Bytes → Result Text ChargedEvent)
      (bytes : Result Text Bytes)
      → lookup symbol (add_bytes base64_decode decode_fee decode_resource m decode bytes)
        ≡ or_earlier (amount_for symbol (event_in bytes decode)) (lookup symbol m)
  lookup-add_bytes symbol m decode (ok bytes) = lookup-add_event symbol m (decode bytes)
  lookup-add_bytes symbol m decode (err e) = refl
  lookup-add_bytes symbol m decode panic = refl

  lookup-add_log :
      (symbol : Text) (m : HashMap ℤ) (log : LogEventDto)
      → lookup symbol (add_log base64_decode decode_fee decode_resource m log)
        ≡ or_earlier (amount_for symbol (charge_of log)) (lookup symbol m)
  unfolding add_log
  lookup-add_log symbol m log =
      elim (Bool-cases (list_eq log.name (codes "TransactionFeeCharged"))) [
        | inl e ↦
            rw (add_log, e) (lookup-add_bytes symbol m decode_fee (base64_decode log.non_indexed))
        | inr e ↦
            rw (add_log, e)
              (elim (Bool-cases (list_eq log.name (codes "ResourceTokenCharged"))) [
                | inl e' ↦
                    rw (add_log, e')
                      (lookup-add_bytes symbol m decode_resource (base64_decode log.non_indexed))
                | inr e' ↦ rw (add_log, e') refl
              ])
      ]

  or_earlier_assoc :
      (a b c : Option ℤ) → or_earlier a (or_earlier b c) ≡ or_earlier (or_earlier a b) c
  or_earlier_assoc none b c = refl
  or_earlier_assoc (some x) b c = refl

  or_earlier-none : (a : Option ℤ) → or_earlier a none ≡ a
  or_earlier-none none = refl
  or_earlier-none (some x) = refl

  lookup-add_logs :
      (symbol : Text) (m : HashMap ℤ) (logs : List LogEventDto)
      → lookup symbol (add_logs base64_decode decode_fee decode_resource m logs)
        ≡ or_earlier (last_charge symbol logs) (lookup symbol m)
  unfolding add_logs
  lookup-add_logs symbol m [] = refl
  lookup-add_logs symbol m (log ∷ logs) =
      lookup-add_logs symbol (add_log base64_decode decode_fee decode_resource m log) logs
      ∙ ap (or_earlier (last_charge symbol logs)) (lookup-add_log symbol m log)
      ∙ or_earlier_assoc (last_charge symbol logs) (amount_for symbol (charge_of log))
          (lookup symbol m)

  -- The fee of a symbol is the amount of the last well-formed charge in it among the logs, and a symbol
  -- that no such charge names has no fee.
  pub lookup-get_transaction_fees :
      (self : TransactionResultDto) (symbol : Text)
      → lookup symbol (get_transaction_fees base64_decode decode_fee decode_resource self)
        ≡ last_charge symbol self.logs
  unfolding get_transaction_fees lookup
  lookup-get_transaction_fees self symbol =
      lookup-add_logs symbol [] self.logs ∙ or_earlier-none (last_charge symbol self.logs)
