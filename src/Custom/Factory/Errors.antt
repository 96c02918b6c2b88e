-- ===== src/Custom/Factory/Errors.antt =====
-- comms/custom.py: the exceptions that can leave message_factory.
use armv.Common.{
  ℕ, ◌≡◌, refl, ◌⊎◌, inl, inr, [], ◌∷◌, Option, Result, ok, raised, Exn, struct_error, index_error,
  key_error, value_error, type_error, unicode_error, comms_error, name_error, attribute_error,
  access_error, overflow_error, runtime_error, exception, assertion_error, no_fuel, ◌>>=◌, arith,
  take, drop,
}
use armv.Common.Bytes.{Bytes, unpack_u32}
use armv.Custom.Message.{Message}
use armv.Custom.Factory.{messages_by_type, from_binary, caught, message_factory}
use armv.Custom.Factory.Parses.{Only, from_binary-Only}

-- What the two handlers of message_factory let through, of what from_binary can raise.
abbrev pub Escapes : Exn → Type 0
Escapes e = (e ≡ struct_error) ⊎ (e ≡ index_error) ⊎ (e ≡ value_error) ⊎ (e ≡ unicode_error)

unpack_u32_error : (bs : Bytes) (x : Exn) → unpack_u32 bs ≡ raised x → x ≡ struct_error
unfolding unpack_u32
unpack_u32_error [] x e = ground arith
unpack_u32_error (a ∷ b ∷ c ∷ d ∷ []) x e = cc
unpack_u32_error _ x e = ground arith

caught-Escapes : (r : Result (Option Message)) (e : Exn) → Only r → caught r ≡ raised e → Escapes e
caught-Escapes (ok m) e h p = cc
caught-Escapes (raised struct_error) e h p = inl (ground arith)
caught-Escapes (raised index_error) e h p = inr (inl (ground arith))
caught-Escapes (raised key_error) e h p = cc
caught-Escapes (raised value_error) e h p = inr (inr (inl (ground arith)))
caught-Escapes (raised type_error) e h p = absurd h
caught-Escapes (raised unicode_error) e h p = inr (inr (inr (ground arith)))
caught-Escapes (raised comms_error) e h p = cc
caught-Escapes (raised no_fuel) e h p = absurd h
caught-Escapes (raised name_error) e h p = absurd h
caught-Escapes (raised attribute_error) e h p = absurd h
caught-Escapes (raised access_error) e h p = absurd h
caught-Escapes (raised overflow_error) e h p = absurd h
caught-Escapes (raised runtime_error) e h p = absurd h
caught-Escapes (raised exception) e h p = absurd h
caught-Escapes (raised assertion_error) e h p = absurd h

-- On any bytes message_factory ends, with a message, with None or with an exception, and the
-- exceptions that leave it are struct.error, IndexError, ValueError and UnicodeDecodeError alone:
-- a KeyError and the module's own Error are caught, and the loop over symbols never runs out of
-- fuel.
pub message_factory-Escapes :
    (bytes : Bytes) (e : Exn)
    → message_factory bytes ≡ raised e
    → (e ≡ struct_error) ⊎ (e ≡ index_error) ⊎ (e ≡ value_error) ⊎ (e ≡ unicode_error)
unfolding message_factory
message_factory-Escapes bytes e p =
    go (unpack_u32 (take 4 bytes)) (unpack_u32_error (take 4 bytes)) p
  where
    go :
        (r : Result ℕ)
        → ((x : Exn) → r ≡ raised x → x ≡ struct_error)
        → (r >>= λ t. caught (from_binary (messages_by_type t) (drop 4 bytes))) ≡ raised e
        → Escapes e
    go (ok t) h q =
        caught-Escapes (from_binary (messages_by_type t) (drop 4 bytes)) e
          (from_binary-Only (messages_by_type t) (drop 4 bytes)) q
    go (raised x) h q = inl (ground (arith, h x refl))
