-- ===== src/Redis/SequenceStateMachine/Keys.antt =====
-- Conversations have keys of their own.
use Prim.Native.String.append
use Prim.Native.String.{String, ◌++◌, ◌∷◌, []}
use mathlib.Core.Path.{◌≡◌, sym, ap, ◌∙◌}
use transcribe_service.Redis.SequenceStateMachine.{Config, key}

tail : String → String
tail [] = ""
tail (c ∷ s) = s

append_cancel : (p a b : String) → p ++ a ≡ p ++ b → a ≡ b
unfolding tail
append_cancel [] a b h = sym (append.nil a) ∙ h ∙ append.nil b
append_cancel (c ∷ p) a b h =
    append_cancel p a b (ap tail (sym (append.cons c p a) ∙ h ∙ append.cons c p b))

-- Two conversations with the same key are one.
pub key-injective : (self : Config) (a b : String) → key self a ≡ key self b → a ≡ b
unfolding key
key-injective self a b h = append_cancel ":" a b (append_cancel self.key_prefix _ _ h)
