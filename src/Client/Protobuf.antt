-- ===== src/Client/Protobuf.antt =====
-- crates/aelf-client/src/protobuf.rs: `RawBytesMessage`. The buffer that a message is written to is the bytes
-- in it.
use aelf_web3_rust.Base.{ℕ, ◌+◌, ◌≡◌, [], ◌++◌, length, length-append, Result, panic}
use aelf_web3_rust.Base.Text.{Text, Bytes}

pub record RawBytesMessage : Type 0 where
  pub bytes : Bytes

unfoldable pub new_raw_bytes : Bytes → RawBytesMessage
new_raw_bytes bytes = record { bytes = bytes }

unfoldable pub encode_raw : RawBytesMessage → Bytes → Bytes
encode_raw self buf = buf ++ self.bytes

-- `unreachable!`.
unfoldable pub merge_field : RawBytesMessage → Result Text RawBytesMessage
merge_field self = panic

unfoldable pub encoded_len : RawBytesMessage → ℕ
encoded_len self = length self.bytes

unfoldable pub clear : RawBytesMessage → RawBytesMessage
clear self = record { bytes = [] }

-- What is written to a buffer is as long as the length that the message announces.
pub encode_raw-encoded_len :
    (self : RawBytesMessage) (buf : Bytes)
    → length (encode_raw self buf) ≡ length buf + encoded_len self
unfolding encode_raw encoded_len
encode_raw-encoded_len self buf = length-append buf self.bytes
