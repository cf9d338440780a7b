-- ===== src/Registry/Resolver/Resolve.antt =====
-- app/registry/resolver.py: `PromptResolver.resolve`, over the repository and the renderer.
use atlas_gateway.Common.{
  ◌≢◌, String, ◌≡◌, refl, Option, none, some, ◌=ₛ◌, if◌then◌else◌, Result, ok, err, arith,
}
use atlas_gateway.Domain.Json.{Json, Members, no_members}
use atlas_gateway.Registry.Resolver.{
  PromptVersionRow, Repository, ResolvedPrompt, Reason, undefined, RenderError, undefined_error,
  template_error, Error, prompt_not_found, params_validation, render_failed, production_label,
  parse_ref,
}
use atlas_gateway.Registry.Resolver.Schema.{validate_params}

-- `params or {}`.
unfoldable pub params_or_empty : Option Members → Members
params_or_empty none = no_members
params_or_empty (some m) = m

module _ (repository : Repository) (render : String → Members → Result RenderError String)
    (str_of : Json → String) where
  unfoldable pub find_version : String → String → Option PromptVersionRow
  find_version name label =
      if label =ₛ production_label
      then repository.get_production_version name
      else repository.get_version_by_semver name label

  -- The last step, with what the renderer gave.
  unfoldable pub finish :
      String → PromptVersionRow → Result RenderError String → Result Error ResolvedPrompt
  finish ref version (err (undefined_error message)) =
      err (params_validation ref (undefined message))
  finish ref version (err template_error) = err render_failed
  finish ref version (ok rendered) = ok (record {
    prompt_version_id = version.id;
    rendered = rendered;
    model_alias = version.model_alias;
    params_schema = version.params_schema;
  })

  -- The version is rendered after its schema has accepted the params.
  unfoldable pub render_valid :
      String → PromptVersionRow → Members → Result Reason (Unit {0}) → Result Error ResolvedPrompt
  unfolding finish
  render_valid ref version params (err reason) = err (params_validation ref reason)
  render_valid ref version params (ok _) = finish ref version (render version.template params)

  unfoldable pub resolve_version :
      String → Members → Option PromptVersionRow → Result Error ResolvedPrompt
  unfolding render_valid
  resolve_version ref params none = err (prompt_not_found ref)
  resolve_version ref params (some version) =
      render_valid ref version params (validate_params str_of version.params_schema params)

  unfoldable pub resolve_parts :
      String → Members → Result Error (String × String) → Result Error ResolvedPrompt
  unfolding resolve_version find_version
  resolve_parts ref params (err e) = err e
  resolve_parts ref params (ok (name, label)) = resolve_version ref params (find_version name label)

  unfoldable pub resolve : String → Option Members → Result Error ResolvedPrompt
  unfolding resolve_parts params_or_empty
  resolve ref params = resolve_parts ref (params_or_empty params) (parse_ref ref)

  -- A version that is rendered for a reference: the reference was parsed, the version found under
  -- its name and label, the params accepted, and the text is the renderer's.
  pub record Rendered (ref : String) (params : Members) (p : ResolvedPrompt) : Type 0 where
    pub name : String
    pub label : String
    pub version : PromptVersionRow
    pub parsed : parse_ref ref ≡ ok (name, label)
    pub found : find_version name label ≡ some version
    pub valid : validate_params str_of version.params_schema params ≡ ok tt
    pub text : render version.template params ≡ ok p.rendered
    pub same_id : p.prompt_version_id ≡ version.id

  raises_not :
      (x : Error) (p : ResolvedPrompt) → ◌≢◌ {A = Result Error ResolvedPrompt} (err x) (ok p)
  raises_not x p e = ground arith

  finish-ok :
      (ref : String) (v : PromptVersionRow) (r : Result RenderError String) {p : ResolvedPrompt}
      → finish ref v r ≡ ok p
      → (r ≡ ok p.rendered) × (p.prompt_version_id ≡ v.id)
  unfolding finish
  finish-ok ref v r e = ground arith

  render_valid-ok :
      (ref : String) (v : PromptVersionRow) (params : Members) (r : Result Reason (Unit {0}))
      {p : ResolvedPrompt}
      → render_valid ref v params r ≡ ok p
      → (r ≡ ok tt) × (finish ref v (render v.template params) ≡ ok p)
  unfolding render_valid
  render_valid-ok ref v params (ok _) e = (refl, e)
  render_valid-ok ref v params (err x) e = cc

  resolve_parts-Rendered :
      (ref : String) (params : Members) (r : Result Error (String × String)) (p : ResolvedPrompt)
      → parse_ref ref ≡ r
      → resolve_parts ref params r ≡ ok p
      → Rendered ref params p
  unfolding resolve_parts resolve_version
  resolve_parts-Rendered ref params (err x) p ep e = absurd (raises_not x p e)
  resolve_parts-Rendered ref params (ok (name, label)) p ep e =
      found_version (find_version name label) refl e
    where
      found_version :
          (o : Option PromptVersionRow)
          → find_version name label ≡ o
          → resolve_version ref params o ≡ ok p
          → Rendered ref params p
      found_version none ef e = absurd (raises_not _ p e)
      found_version (some v) ef e =
          let (valid, done) = render_valid-ok ref v params _ e in
          let (text, id) = finish-ok ref v _ done in
          record {
            name = name;
            label = label;
            version = v;
            parsed = ep;
            found = ef;
            valid = valid;
            text = text;
            same_id = id;
          }

  -- What is returned was rendered from the version that the reference names, with params that its
  -- schema accepts: nothing is rendered with params that it refuses.
  pub resolve-Rendered :
      (ref : String) (params : Option Members) (p : ResolvedPrompt)
      → resolve ref params ≡ ok p
      → Rendered ref (params_or_empty params) p
  unfolding resolve
  resolve-Rendered ref params p e =
      resolve_parts-Rendered ref (params_or_empty params) (parse_ref ref) p refl e
