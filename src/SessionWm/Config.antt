-- ===== src/SessionWm/Config.antt =====
-- internal/sessionwm/config.go: the command and the restart policy, from the environment and from what
-- `kernocfg.Load` has read. `strings.TrimSpace` and `strings.Fields` are those of ASCII white space.
use a_kerno.Common.{
  ℕ, Bool-cases, inl, inr, Bytes, bytes_eq, text, List, [], ◌∷◌, ◌++◌, Option, none, some, false,
  not, ◌≡◌, ◌≢◌, arith, if◌then◌else◌, bytes_eq_iff,
}
use a_kerno.KernoCfg.{Composer}
use a_kerno.Text.{trim_space, is_space}

-- `RestartPolicy` is a string type: `other` is any string but the three constants.
pub data WmPolicy : Type 0 where
  always on_failure disabled : WmPolicy
  other : Bytes → WmPolicy

pub record WmConfig : Type 0 where
  pub spec : Bytes
  pub restart : WmPolicy

-- `os.Getenv` of the three variables; an unset one is empty.
pub record WmEnviron : Type 0 where
  pub compositor : Bytes
  pub wm : Bytes
  pub restart : Bytes

-- `parseRestartPolicy`: `none` for the empty policy.
unfoldable pub parse_restart_policy : Bytes → Option WmPolicy
parse_restart_policy raw =
    if bytes_eq (trim_space raw) (text "always")
    then some WmPolicy.always
    else if bytes_eq (trim_space raw) (text "on-failure")
    then some WmPolicy.on_failure
    else if bytes_eq (trim_space raw) (text "disabled")
    then some WmPolicy.disabled
    else none

abbrev pub or_else : Option WmPolicy → Option WmPolicy → Option WmPolicy
or_else none q = q
or_else (some p) q = some p

abbrev pub or_always : Option WmPolicy → WmPolicy
or_always none = WmPolicy.always
or_always (some p) = p

-- `LoadConfig`
unfoldable pub load_wm_config : WmEnviron → Composer → WmConfig
load_wm_config env file = record {
  spec =
      if not (bytes_eq (trim_space env.compositor) [])
      then trim_space env.compositor
      else if not (bytes_eq (trim_space env.wm) [])
      then trim_space env.wm
      else file.run;
  restart =
      or_always (or_else (parse_restart_policy env.restart) (parse_restart_policy file.restart));
}

-- `strings.Fields`: the words, `word` being the one at hand.
unfoldable pub fields : Bytes → Bytes → List Bytes
fields word [] = if bytes_eq word [] then [] else word ∷ []
fields word (c ∷ cs) =
    let next = fields [] cs in
    let longer = fields (word ++ c ∷ []) cs in
    if is_space c then (if bytes_eq word [] then next else word ∷ next) else longer

-- `ParseSpec`
unfoldable pub parse_spec : Bytes → List Bytes
unfolding fields
parse_spec spec = fields [] spec

abbrev pub HasNoSpace : Bytes → Type 0
HasNoSpace [] = Unit
HasNoSpace (c ∷ cs) = (is_space c ≡ false) × HasNoSpace cs

-- Not empty, and without white space.
abbrev pub IsWord : Bytes → Type 0
IsWord word = (word ≢ []) × HasNoSpace word

abbrev pub AllWords : List Bytes → Type 0
AllWords [] = Unit
AllWords (word ∷ words) = IsWord word × AllWords words

HasNoSpace-snoc :
    (word : Bytes) (c : ℕ) → HasNoSpace word → is_space c ≡ false → HasNoSpace (word ++ c ∷ [])
HasNoSpace-snoc [] c h letter = (letter, tt)
HasNoSpace-snoc (d ∷ ds) c h letter = (h.0, HasNoSpace-snoc ds c h.1 letter)

at_space :
    (word : Bytes) (next : List Bytes)
    → HasNoSpace word
    → AllWords next
    → AllWords (if bytes_eq word [] then next else word ∷ next)
unfolding bytes_eq
at_space [] next h words = words
at_space (w ∷ ws) next h words = ((ground arith, h), words)

fields-AllWords : (word s : Bytes) → HasNoSpace word → AllWords (fields word s)
unfolding fields bytes_eq
fields-AllWords [] [] h = tt
fields-AllWords (w ∷ ws) [] h = ((ground arith, h), tt)
fields-AllWords word (c ∷ cs) h = elim (Bool-cases (is_space c)) [
  | inl space ↦ rw space (at_space word (fields [] cs) h (fields-AllWords [] cs tt))
  | inr letter ↦ rw letter (fields-AllWords (word ++ c ∷ []) cs (HasNoSpace-snoc word c h letter))
]

-- Each argument that `ParseSpec` makes of a command string is a non-empty word without white space.
pub parse_spec-AllWords : (spec : Bytes) → AllWords (parse_spec spec)
unfolding parse_spec
parse_spec-AllWords spec = fields-AllWords [] spec tt

-- The command is that of ADE_COMPOSITOR if it is not blank, else that of ADE_WM if that is not, else
-- that of the file; a valid restart policy of the environment goes before one of the file, and without
-- either the policy is `always`: no other policy is loaded than the three constants.
pub load_wm_config_lem :
    (env : WmEnviron) (file : Composer)
    → (trim_space env.compositor ≢ [] → (load_wm_config env file).spec ≡ trim_space env.compositor)
      × (trim_space env.compositor ≡ []
          → trim_space env.wm ≢ []
          → (load_wm_config env file).spec ≡ trim_space env.wm)
      × (trim_space env.compositor ≡ []
          → trim_space env.wm ≡ []
          → (load_wm_config env file).spec ≡ file.run)
      × ((policy : WmPolicy)
          → parse_restart_policy env.restart ≡ some policy
          → (load_wm_config env file).restart ≡ policy)
      × (parse_restart_policy env.restart ≡ none
          → parse_restart_policy file.restart ≡ none
          → (load_wm_config env file).restart ≡ WmPolicy.always)
      × ((s : Bytes) → (load_wm_config env file).restart ≢ WmPolicy.other s)
unfolding load_wm_config parse_restart_policy
load_wm_config_lem env file =
    let c = bytes_eq_iff (trim_space env.compositor) [] in
    let w = bytes_eq_iff (trim_space env.wm) [] in
    (
      ground (arith, c),
      ground (arith, c, w),
      ground (arith, c, w),
      λ p h. ground arith,
      ground arith,
      λ s. ground arith,
    )
