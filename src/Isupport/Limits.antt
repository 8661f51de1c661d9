-- ===== src/Isupport/Limits.antt =====
-- parseIsupport.ts: the bound on the retained tokens, and what a token does to the typed view.
use mojo_jojo.Base.{◌≤◌, [], ◌∷◌, Option, arith, List, Str, length}
use mojo_jojo.Base.Dict.{Dict, length-put, length-remove}
use mojo_jojo.Isupport.{
  ISupport, TextOps, max_isupport_keys, apply_token, apply_tokens, parse_isupport, derive_isupport,
  cut, token_value,
}

apply_token-length :
    (ops : TextOps) (raw : Dict (Option Str)) (token : Str)
    → length raw ≤ max_isupport_keys
    → length (apply_token ops raw token) ≤ max_isupport_keys
unfolding apply_token
apply_token-length ops raw [] h = h
apply_token-length ops raw (c ∷ token) h = ground (
  arith,
  h,
  length-put raw (ops.to_upper (cut b'=' (c ∷ token)).0) (token_value (cut b'=' (c ∷ token)).1),
  length-remove raw (ops.to_upper token),
)

pub apply_tokens-length :
    (ops : TextOps) (raw : Dict (Option Str)) (tokens : List Str)
    → length raw ≤ max_isupport_keys
    → length (apply_tokens ops raw tokens) ≤ max_isupport_keys
unfolding apply_tokens
apply_tokens-length ops raw [] h = h
apply_tokens-length ops raw (t ∷ ts) h =
    apply_tokens-length ops (apply_token ops raw t) ts (apply_token-length ops raw t h)

-- At most 256 tokens are retained, whatever the server sends on top of a view that has as many.
pub parse_isupport-length :
    (ops : TextOps) (tokens : List Str) (previous : ISupport)
    → length previous.raw ≤ max_isupport_keys
    → length (parse_isupport ops tokens previous).raw ≤ max_isupport_keys
unfolding parse_isupport derive_isupport
parse_isupport-length ops tokens previous h = apply_tokens-length ops previous.raw tokens h
