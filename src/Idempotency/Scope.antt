-- ===== src/Idempotency/Scope.antt =====
-- The key under which an invocation is recorded: `${actor}:${key}`.
use climate_chain.Shared.{ℕ, String, ◌≡◌, refl, sym, ap, ◌∙◌, ◌≢◌}
use Prim.Native.Char.{Char, code}
use Prim.Native.String.{◌++◌}
use text.Mathlib.TextLemmas.{nil-append, cons-append}
use climate_chain.Idempotency.{scoped_key}

-- The text has no colon.
abbrev pub IsColonFree : String → Type 0
IsColonFree String.[] = Unit
IsColonFree (String.◌∷◌ c s) = (code c ≢ 58) × IsColonFree s

abbrev head_code : String → ℕ
head_code String.[] = 0
head_code (String.◌∷◌ c s) = code c

abbrev rest_of : String → String
rest_of String.[] = ""
rest_of (String.◌∷◌ c s) = s

abbrev colon : Char
colon = Prim.Native.Char.char 58 tt

colon-append : (k : String) → ":" ++ k ≡ String.◌∷◌ colon k
colon-append k = cons-append colon "" k ∙ ap (λ t. String.◌∷◌ colon t) (nil-append k)

scope_split :
    (one other k j : String)
    → IsColonFree one
    → IsColonFree other
    → one ++ ":" ++ k ≡ other ++ ":" ++ j
    → (one ≡ other) × (k ≡ j)
scope_split String.[] String.[] k j p q h =
    (refl, ap rest_of (simp (nil-append, colon-append) at h))
scope_split String.[] (String.◌∷◌ d t) k j p q h =
    absurd (q.0 (sym (ap head_code (simp (nil-append, colon-append, cons-append) at h))))
scope_split (String.◌∷◌ c s) String.[] k j p q h =
    absurd (p.0 (ap head_code (simp (nil-append, colon-append, cons-append) at h)))
scope_split (String.◌∷◌ c s) (String.◌∷◌ d t) k j p q h =
    let h' : String.◌∷◌ c (s ++ ":" ++ k) ≡ String.◌∷◌ d (t ++ ":" ++ j) = simp cons-append at h in
    let (same, keys) = scope_split s t k j p.1 q.1 (ap rest_of h') in (cc, keys)

-- Two callers whose identifiers hold no colon share a record only if they are one caller with one key.
pub scoped_key_injective :
    (one other k j : String)
    → IsColonFree one
    → IsColonFree other
    → scoped_key one k ≡ scoped_key other j
    → (one ≡ other) × (k ≡ j)
unfolding scoped_key
scoped_key_injective one other k j p q h = scope_split one other k j p q h
