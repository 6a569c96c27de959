-- ===== src/Shared/Redis/Keys.antt =====
-- shared/redis/cache_keys.py
use Prim.Native.String.{◌++◌}
use text.Mathlib.TextLemmas.{append_assoc, append_cancel_left, append_inj}
use filo_j.Prelude.{String, ◌≡◌, ◌≢◌, refl, sym, ap, ◌∙◌, arith, eq_iff, ◌==◌, false, ne→==_false}

unfoldable pub api_key_meta_key : String → String
api_key_meta_key api_key = "apikey:meta:" ++ api_key

unfoldable pub api_key_usage_key : String → String → String
api_key_usage_key api_key window = "apikey:usage:" ++ (api_key ++ (":" ++ window))

unfoldable pub storage_usage_key : String → String
storage_usage_key developer_id = "developer:storage:" ++ developer_id

unfoldable pub web_hook_config_key : String → String
web_hook_config_key developer_id = "webhook_cofig:" ++ developer_id

pub api_key_meta_key-injective : (a b : String) → api_key_meta_key a ≡ api_key_meta_key b → a ≡ b
unfolding api_key_meta_key
api_key_meta_key-injective a b h = append_cancel_left "apikey:meta:" a b h

m-ne-u : ◌≢◌ {A = String} "m" "u"
m-ne-u = ground (arith, eq_iff "m" "u")

regroup : (p q r t : String) → (p ++ (q ++ r)) ++ t ≡ p ++ (q ++ (r ++ t))
regroup p q r t = append_assoc p (q ++ r) t ∙ ap (λ u. p ++ u) (append_assoc q r t)

-- No key of the metadata is a key of a usage counter.
pub meta-ne-usage : (a b w : String) → api_key_meta_key a ≢ api_key_usage_key b w
unfolding api_key_meta_key api_key_usage_key
meta-ne-usage a b w h =
    let t : String = b ++ (":" ++ w) in
    let same : "apikey:" ++ ("m" ++ ("eta:" ++ a)) ≡ "apikey:" ++ ("u" ++ ("sage:" ++ t)) =
      sym (regroup "apikey:" "m" "eta:" a) ∙ h ∙ regroup "apikey:" "u" "sage:" t in
    let tails : "m" ++ ("eta:" ++ a) ≡ "u" ++ ("sage:" ++ t) =
      append_cancel_left "apikey:" _ _ same in
    m-ne-u ((append_inj {s₁ = "m"} {s₂ = "u"} tails refl).0)

pub meta-==-usage : (a b w : String) → (api_key_meta_key a == api_key_usage_key b w) ≡ false
meta-==-usage a b w = ne→==_false _ _ (meta-ne-usage a b w)
