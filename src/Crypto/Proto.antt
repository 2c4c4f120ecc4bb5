-- ===== src/Crypto/Proto.antt =====
-- The messages of proto/upstream/aelf/core.proto that the SDK builds itself, as prost declares them.
use aelf_web3_rust.Base.{Option}
use aelf_web3_rust.Base.Text.{Text, Bytes}
use aelf_web3_rust.Base.Word.{ℤ}

pub record Address : Type 0 where
  pub value : Bytes

pub record Hash : Type 0 where
  pub value : Bytes

pub record Transaction : Type 0 where
  pub from : Option Address
  pub to : Option Address
  pub ref_block_number : ℤ
  pub ref_block_prefix : Bytes
  pub method_name : Text
  pub params : Bytes
  pub signature : Bytes
