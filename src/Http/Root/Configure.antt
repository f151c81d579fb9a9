-- ===== src/Http/Root/Configure.antt =====
-- The configuration of the HTTP filter of wasm/http-bridge/src/lib.rs, and the filters made with it.
use grpcgi.Base.{
  ℕ, ◌≡◌, refl, ap, ◌∙◌, true, false, arith, List, [], ◌∷◌, All, ◌>>=◌, ok, some, inl, inr,
}
use grpcgi.Base.{Bool, Option, none, Outcome}
use grpcgi.Base.Machine.{Bytes}
use grpcgi.Base.Text.{Text, ascii}
use grpcgi.Base.Utf8.{is_utf8, from_utf8_lossy-utf8}
use grpcgi.Http.Json.{json_str_field}
use grpcgi.Http.Json.Flat.{Member, IsMember, IsKey, object_text, lookup, lookup_or, lookup_cases}
use grpcgi.Http.Json.Flat.Read.{json_str_field-object_text}
use grpcgi.Http.Filter.{HttpBridgeFilter}
use grpcgi.Http.Root.{HttpBridgeRoot, or_before, on_configure, create_http_context}

or_before-lookup :
    (fallback key : Text) (ms : List Member)
    → or_before (lookup key ms) fallback ≡ ok (lookup_or fallback key ms)
or_before-lookup fallback key ms = elim (lookup_cases fallback key ms) [
  | inl (missing, same) ↦ rw (missing, same)
  | inr found ↦ rw found
]

read_field :
    (fallback key : Text) (m : Member) (ms : List Member)
    → IsKey key
    → All (IsMember key) (m ∷ ms)
    → or_before (json_str_field (object_text m ms) key) fallback
      ≡ ok (lookup_or fallback key (m ∷ ms))
read_field fallback key m ms valid all =
    ap (λ o. or_before o fallback) (json_str_field-object_text key m ms valid all)
    ∙ or_before-lookup fallback key (m ∷ ms)

-- A configuration, and a filter that is made after it.
abbrev pub configured_filter : HttpBridgeRoot → ℕ → Option Bytes → Outcome (HttpBridgeFilter × Bool)
configured_filter root context_id config = do
  configured ← on_configure root config
  ok (create_http_context configured.0 context_id, configured.1)

-- After a configuration that is a flat object of strings in UTF-8, a new filter has the object's
-- cluster and authority, or those of before where the object has none, and waits for its request,
-- with any number of spaces in front of and behind every key and every value of the object. Strings
-- hold no quotation mark, and no value is spelled like one of the two keys.
pub create_http_context-on_configure :
    (root : HttpBridgeRoot) (context_id : ℕ) (m : Member) (ms : List Member)
    → is_utf8 (object_text m ms) ≡ true
    → All (IsMember (ascii "cluster")) (m ∷ ms)
    → All (IsMember (ascii "authority")) (m ∷ ms)
    → configured_filter root context_id (some (object_text m ms))
      ≡ ok (
        record {
          context_id = context_id;
          cluster = lookup_or root.cluster (ascii "cluster") (m ∷ ms);
          authority = lookup_or root.authority (ascii "authority") (m ∷ ms);
          call_token = none;
          req_headers = [];
          req_body = [];
          passthrough = false;
          body_pending = false;
        },
        true,
      )
unfolding on_configure create_http_context
create_http_context-on_configure root context_id m ms text cluster authority =
    rw
      (
        from_utf8_lossy-utf8 (object_text m ms) text,
        read_field root.cluster (ascii "cluster") m ms (omega arith) cluster,
        read_field root.authority (ascii "authority") m ms (omega arith) authority,
      )
      refl
