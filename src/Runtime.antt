-- ===== src/Runtime.antt =====
-- What the code takes from the Python runtime and the model does not define: the case table of
-- Unicode and the regular-expression engine. The theorems hold for every such pair.
use aws_tagging_utils.Base.{String, Bool, Option}

pub record Runtime : Type 0 where
  -- `str.lower`
  pub lower : String → String
  -- `re.match(pattern, text)`: `none` stands for `re.error`, raised by an invalid pattern.
  pub re_match : String → String → Option Bool
