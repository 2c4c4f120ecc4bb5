-- ===== src/Client/Service/Tx/Sent.antt =====
-- crates/aelf-client/src/lib.rs: what `send_transaction` accepts.
use aelf_web3_rust.Base.{◌≡◌, ap, some, [], Result, ok, err, panic, map_ok-eq-ok, subst, ◌++◌}
use aelf_web3_rust.Base.Text.{Text, codes}
use aelf_web3_rust.Base.Json.{text_object}
use aelf_web3_rust.Client.Error.{AElfResult}
use aelf_web3_rust.Client.Provider.{post}
use aelf_web3_rust.Client.Action.{Provider, run_ok}
use aelf_web3_rust.Client.Codec.{Codec}
use aelf_web3_rust.Client.Dto.{SendTransactionOutput}
use aelf_web3_rust.Client.TransactionId.{validate_transaction_id, strip_transaction_id_quotes}
use aelf_web3_rust.Client.TransactionId.Accepted.{IsTransactionId, validate_transaction_id_iff}
use aelf_web3_rust.Client.Service.{api_base, post_text}
use aelf_web3_rust.Client.Service.Tx.{read_sent, send_transaction, validated, first_reading}

module _ {H W : Type 0} (provider : Provider H W) (codec : Codec) where
  abbrev Returned : SendTransactionOutput → Type 0
  Returned output = IsTransactionId (strip_transaction_id_quotes output.transaction_id)

  validated-eq-ok :
      (text id : Text) (output : SendTransactionOutput)
      → validated provider codec text id ≡ ok output
      → Returned output
  validated-eq-ok text id output h =
      let (t, valid, made) = map_ok-eq-ok _ (validate_transaction_id id text) h in
      subst Returned made ((validate_transaction_id_iff id text t).0 valid).1

  first_reading-eq-ok :
      (sent : Result Text SendTransactionOutput) (as_text : Result Text Text) (text : Text)
      (output : SendTransactionOutput)
      → first_reading provider codec sent as_text text ≡ ok output
      → Returned output
  first_reading-eq-ok (ok o) as_text text output h = validated-eq-ok text o.transaction_id output h
  first_reading-eq-ok panic as_text text output h = absurd (cc)
  first_reading-eq-ok (err e) (ok id) text output h = validated-eq-ok text id output h
  first_reading-eq-ok (err e) panic text output h = absurd (cc)
  first_reading-eq-ok (err e) (err e') text output h = validated-eq-ok text text output h

  read_sent-eq-ok :
      (text : Text) (output : SendTransactionOutput)
      → read_sent provider codec text ≡ ok output
      → Returned output
  unfolding read_sent
  read_sent-eq-ok text output h =
      first_reading-eq-ok (codec.sent_from_str text) (codec.text_from_str text) text output h

  -- Where `send_transaction` succeeds, the node answered the post of the raw transaction with a text,
  -- in the one request that is made, and the id that is returned is, without whitespace and quotes
  -- around it, 64 hexadecimal digits with or without a prefix 0x or 0X.
  pub send_transaction-IsTransactionId :
      (raw : Text) (w w' : W) (output : SendTransactionOutput)
      → send_transaction provider codec raw w ≡ (ok output, w')
      → (text : Text) × (provider.request_text post
            (api_base ++ codes "/sendTransaction")
            []
            (some (text_object (codes "RawTransaction") raw))
            w
          ≡ (ok text, w'))
        × IsTransactionId (strip_transaction_id_quotes output.transaction_id)
  unfolding send_transaction post_text
  send_transaction-IsTransactionId raw w w' output h =
      run_ok
        (post_text provider (api_base ++ codes "/sendTransaction")
          (text_object (codes "RawTransaction") raw))
        _ w h
        λ text w₁ answered h₁.
          let ends : w₁ ≡ w' = ap (λ (p : AElfResult H SendTransactionOutput × W). p.1) h₁ in
          (
            text,
            rw ends at answered,
            read_sent-eq-ok text output
                (ap (λ (p : AElfResult H SendTransactionOutput × W). p.0) h₁),
          )
