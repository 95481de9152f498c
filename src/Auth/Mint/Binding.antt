-- ===== src/Auth/Mint/Binding.antt =====
-- internal/auth/binding_key.go: the key that role bindings are matched against. strings.EqualFold with "true" is a parameter.
use host_manager.Base.{
  Bytes, text, beq, lookup, Bool, false, not, ◌&&◌, ◌||◌, Option, none, some, [], if◌then◌else◌,
}
use host_manager.Auth.Mint.{Claim, Claims, word, flag}

-- What a claim gives as a key: a string that is not empty
abbrev pub usable : Option Claim → Option Bytes
usable (some (word v)) = if beq v [] then none else some v
usable _ = none

module _ (equal_fold_true : Bytes → Bool) where
  abbrev pub is_truthy : Option Claim → Bool
  is_truthy (some (flag b)) = b
  is_truthy (some (word v)) = equal_fold_true v
  is_truthy _ = false

  -- emailVerifiedTruthy
  unfoldable pub email_verified_truthy : Claims → Bool
  unfolding lookup
  email_verified_truthy claims = is_truthy (lookup (text "email_verified") claims)

  abbrev pub key_or_sub : Claims → Bytes → Bytes → Bool → Option Bytes → Bytes
  key_or_sub claims sub claim required none = sub
  key_or_sub claims sub claim required (some v) =
      if beq claim (text "email") && required && not (email_verified_truthy claims) then sub else v

  -- resolveBindingKey
  unfoldable pub resolve_binding_key : Claims → Bytes → Bytes → Bool → Bytes
  unfolding email_verified_truthy lookup
  resolve_binding_key claims sub claim required =
      if beq claim [] || beq claim (text "sub")
      then sub
      else key_or_sub claims sub claim required (usable (lookup claim claims))
