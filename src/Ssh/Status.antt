-- ===== src/Ssh/Status.antt =====
-- Return codes and small enumerations: src/SSHServer/shared/cl/cryptlib.h and
-- src/SSHServer/shared/cl-sources/ssh.h.
use bosh_dotnet.Prelude.{ℕ, Bool, true, false}

-- The codes that the SSH files return. `failed n` stands for any other code of a called function,
-- and `overrun` for no code at all: the run has written past the end of a buffer, and what the
-- program does from there on is not defined.
pub data Status : Type 0 where
  ok ok_special not_inited internal permission complete invalid overflow : Status
  bad_data not_found duplicate envelope_resource wrong_key signature : Status
  read_error timeout not_available overrun : Status
  failed : ℕ → Status

-- cryptStatusError: every code but CRYPT_OK is below it, OK_SPECIAL too.
abbrev pub is_error : Status → Bool
is_error ok = false
is_error _ = true

abbrev pub is_special : Status → Bool
is_special ok_special = true
is_special _ = false

-- CHANNEL_TYPE
pub data ChannelType : Type 0 where
  channel_none channel_read channel_write channel_both : ChannelType
