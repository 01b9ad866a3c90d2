-- ===== src/Errors.antt =====
-- `APIError` and `map_boto_error`: src/errors.py
use aws_tagging_utils.Base.{ℕ, String, List, [], ◌∷◌, contains, string_eq, if◌then◌else◌}
use aws_tagging_utils.Base.{Bool}

pub record ApiError : Type 0 where
  pub message : String
  pub status_code : ℕ
  pub error_code : String

-- A call that may raise an `APIError`.
pub data Result {ℓ} (A : Type ℓ) : Type ℓ where
  ok : A → Result A
  err : ApiError → Result A

-- The exceptions that `map_boto_error` tells apart: a `ClientError` with its code, a
-- `BotoCoreError` with whether its class name holds "Credential", any other.
pub data Raised : Type 0 where
  client_error : String → Raised
  boto_core_error : Bool → Raised
  other_error : Raised

abbrev access_codes : List String
access_codes = "AccessDenied" ∷ "AccessDeniedException" ∷ []

abbrev throttling_codes : List String
throttling_codes = "Throttling" ∷ "ThrottlingException" ∷ "TooManyRequestsException" ∷ []

abbrev credential_codes : List String
credential_codes =
    "UnrecognizedClientException" ∷ "InvalidClientTokenId" ∷ "InvalidAccessKeyId" ∷ "AuthFailure"
    ∷ "ExpiredToken" ∷ "ExpiredTokenException" ∷ []

unfoldable pub map_boto_error : Raised → ApiError
map_boto_error (client_error code) =
    if contains access_codes code
    then record {
      status_code = 403;
      error_code = "ACCESS_DENIED";
      message = "AWS access denied. Please check your permissions.";
    }
    else if contains throttling_codes code
    then record {
      status_code = 429;
      error_code = "THROTTLED";
      message = "AWS API rate limit exceeded. Please try again later.";
    }
    else if contains credential_codes code
    then record {
      status_code = 503;
      error_code = "INVALID_CREDENTIALS";
      message = "AWS credentials are invalid or missing.";
    }
    else record {
      status_code = 502;
      error_code = "AWS_SERVICE_ERROR";
      message = "AWS service returned an error.";
    }
map_boto_error (boto_core_error credential) =
    if credential
    then record {
      status_code = 503;
      error_code = "INVALID_CREDENTIALS";
      message = "AWS credentials are invalid or missing.";
    }
    else record {
      status_code = 502;
      error_code = "AWS_SDK_ERROR";
      message = "An internal AWS SDK error occurred.";
    }
map_boto_error other_error = record {
  status_code = 500;
  error_code = "INTERNAL_ERROR";
  message = "An unexpected internal error occurred.";
}
