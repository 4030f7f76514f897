-- ===== src/Admin/Providers/Masked.antt =====
-- What the console shows of a provider's secret (src/admin/catalog_api.rs).
use Prim.Native.String.{◌++◌ as append, ◌∷◌ as push}
use Prim.Native.String.append as appended
use lite_agentify.Prelude.{
  ℕ, zero, ◌≤◌, ◌<◌, ◌⊎◌, sym, suc, ◌+◌, ◌-◌, ◌≡◌, refl, ap, ◌∙◌, String, true, false, some, ok,
  arith, is_some, leb, inl, inr, Bool-cases,
}
use lite_agentify.Prelude.Text.{is_blank, strip_prefix}
use lite_agentify.Model.{Protocol, open_ai, anthropic, protocol_text}
use lite_agentify.Config.{ProviderConfig}
use lite_agentify.Decimal.{DecimalOps}
use lite_agentify.Account.Database.{ColumnJson}
use lite_agentify.Catalog.Providers.{parse_protocol}
use lite_agentify.Admin.{ProviderView}
use lite_agentify.Admin.Providers.{
  mask_prefix, count_chars, skip_chars, mask_keeping_suffix, ProviderBody, build_provider,
  provider_view,
}

count_chars-append : (s t : String) → count_chars (append s t) ≡ count_chars s + count_chars t
unfolding count_chars
count_chars-append String.[] t = ap count_chars (appended.nil t) ∙ omega arith
count_chars-append (String.◌∷◌ c s) t =
    ap count_chars (appended.cons c s t) ∙ omega (arith, count_chars-append s t)

-- A text is its first characters followed by the others.
split_at :
    (n : ℕ) (s : String)
    → n ≤ count_chars s
    → (front : String) × (s ≡ append front (skip_chars n s)) × (count_chars front ≡ n)
unfolding count_chars skip_chars
split_at zero s h = ("", sym (appended.nil s), refl)
split_at (suc n) String.[] h = absurd (omega (arith, h))
split_at (suc n) (String.◌∷◌ c s) h =
    let (front, whole, size) = split_at n s (omega (arith, h)) in
    (push c front, ap (push c) whole ∙ sym (appended.cons c front (skip_chars n s)), ap suc size)

-- Of a secret of eight characters or more the mask shows its last four, and nothing of the four or
-- more before them; of a shorter one, the empty one included, it shows nothing.
pub mask_keeping_suffix_shows :
    (key : String)
    → ((count_chars key < 8) × (mask_keeping_suffix key ≡ mask_prefix))
      ⊎ ((front : String) × (last : String) × (key ≡ append front last)
          × (count_chars last ≡ 4)
          × (4 ≤ count_chars front)
          × (mask_keeping_suffix key ≡ append mask_prefix last))
unfolding mask_keeping_suffix
mask_keeping_suffix_shows key = elim (Bool-cases (leb 8 (count_chars key))) [
  | inr short ↦ inl (ground (arith, short), rw (mask_keeping_suffix, short) refl)
  | inl long ↦
      let eight : 8 ≤ count_chars key = ground (arith, long) in
      let (front, whole, size) = split_at (count_chars key - 4) key (omega (arith, eight)) in
      let last = skip_chars (count_chars key - 4) key in
      let both : count_chars key ≡ count_chars front + count_chars last =
        ap count_chars whole ∙ count_chars-append front last in
      inr (
        front,
        last,
        whole,
        omega (arith, both, size, eight),
        omega (arith, size, eight),
        rw (mask_keeping_suffix, long) refl,
      )
]

strip_prefix-append : (p s : String) → strip_prefix p (append p s) ≡ some s
unfolding strip_prefix
strip_prefix-append String.[] s = ap some (appended.nil s)
strip_prefix-append (String.◌∷◌ c p) s =
    ap (strip_prefix (push c p)) (appended.cons c p s) ∙ ground (arith, strip_prefix-append p s)

is_masked : (key : String) → is_some (strip_prefix mask_prefix (mask_keeping_suffix key)) ≡ true
unfolding strip_prefix mask_keeping_suffix
is_masked key = elim (Bool-cases (leb 8 (count_chars key))) [
  | inl long ↦
      rw (mask_keeping_suffix, long)
        (ap is_some (strip_prefix-append mask_prefix (skip_chars (count_chars key - 4) key)))
  | inr short ↦ rw (mask_keeping_suffix, short) refl
]

parse_protocol-protocol_text :
    (protocol : Protocol) → parse_protocol (protocol_text protocol) ≡ some protocol
parse_protocol-protocol_text open_ai = refl
parse_protocol-protocol_text anthropic = refl

module _ (d : DecimalOps) (j : ColumnJson) where
  -- The form that sends back what is shown.
  abbrev pub resubmit : ProviderView d j → ProviderBody
  resubmit shown = record {
    protocol = shown.protocol;
    base_url = shown.base_url;
    api_key = shown.api_key;
    anthropic_version = shown.anthropic_version;
    model_aliases = shown.model_aliases;
  }

  -- Sending back what the console shows of a provider, the masked secret included, builds the
  -- provider as it was, with its secret, unless its base URL or its secret is blank.
  pub build_provider-resubmit :
      (provider : ProviderConfig)
      → is_blank provider.base_url ≡ false
      → is_blank provider.api_key ≡ false
      → build_provider provider.id (resubmit (provider_view d j provider)) (some provider.api_key)
        ≡ ok provider
  unfolding build_provider
  build_provider-resubmit provider url key =
      rw
        (
          build_provider,
          parse_protocol-protocol_text provider.protocol,
          url,
          is_masked provider.api_key,
          key,
        )
        refl
