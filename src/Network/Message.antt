-- ===== src/Network/Message.antt =====
-- FrontierMessage (imsdk/src/include/model/network.h) and roc::error::Error
-- (imsdk/base/include/network/Error.h).
use roc_im_sdk.Decimal.{to_string}
use roc_im_sdk.Prelude.{ℕ, List, ℤ, Str, [], ◌∷◌, ◌++◌, codes, if◌then◌else◌, ◌==◌, nat_eq}

pub record Error : Type 0 where
  pub code : ℕ
  pub message : Str
  pub details : Str

-- make_error with two arguments, and with three.
abbrev pub make_error : ℕ → Str → Error
make_error code message = record { code = code; message = message; details = [] }

abbrev pub make_error_details : ℕ → Str → Str → Error
make_error_details code message details = record {
  code = code;
  message = message;
  details = details;
}

-- Error::to_string.
unfoldable pub error_to_string : Error → Str
unfolding to_string
error_to_string e =
    if e.code == 0
    then e.message
    else let result = codes "Error[" ++ to_string e.code ++ codes "]: " ++ e.message in
      elim e.details [ [] ↦ result | c ∷ cs ↦ result ++ codes " - " ++ (c ∷ cs) ]

-- std::expected with roc::error::Error.
pub data Expected (A : Type 0) : Type 0 where
  value : A → Expected A
  unexpected : Error → Expected A

pub record FrontierMessage : Type 0 where
  pub request_id : Str
  pub type : Str
  pub service : Str
  pub method : Str
  pub payload : List ℕ
  pub error : Str
  pub timestamp : ℤ
  pub metadata : List (Str × Str)

-- The message that a default constructor makes. The C++ struct leaves `timestamp` without a value.
abbrev pub empty_message : ℤ → FrontierMessage
empty_message timestamp = record {
  request_id = [];
  type = [];
  service = [];
  method = [];
  payload = [];
  error = [];
  timestamp = timestamp;
  metadata = [];
}
