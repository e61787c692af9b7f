-- ===== src/Serial/Writer.antt =====
-- crates/kernel/src/serial.rs and crates/kernel/src/print.rs: formatted output. What `core::fmt` makes of its
-- arguments is a parameter.
use Prim.Native.String
use Prim.Native.String.append
use Prim.Native.Char.{code}
use mathlib.Core.List.{append_assoc}
use cyptos.Prelude.{
  ℕ, ◌≡◌, refl, ◌∙◌, sym, ap, Bool, true, String, List, [], ◌∷◌, ◌++◌, Option, none, some,
  if◌then◌else◌,
}
use cyptos.Serial.{Console, bytes, put_bytes, puts, utf8}

-- `fmt::Result` is true for `Ok`.
abbrev pub Writer : Type 0
Writer = String → Console → Bool × Console

-- `SerialWriter::write_str`.
unfoldable pub write_str : Writer
unfolding puts
write_str s k = (true, puts s k)

abbrev pub concat : List String → String
concat [] = ""
concat (s ∷ ss) = String.◌++◌ s (concat ss)

put_bytes-append :
    (cs ds : List ℕ) (k : Console) → put_bytes (cs ++ ds) k ≡ put_bytes ds (put_bytes cs k)
unfolding put_bytes
put_bytes-append [] ds k = refl
put_bytes-append (c ∷ cs) ds k = put_bytes-append cs ds _

bytes-append : (s t : String) → bytes (String.◌++◌ s t) ≡ bytes s ++ bytes t
unfolding bytes
bytes-append String.[] t = ap bytes (append.nil t)
bytes-append (String.◌∷◌ c s) t =
    ap bytes (λ i. append.cons c s t i)
    ∙ (ap (◌++◌ (utf8 (code c))) (bytes-append s t)
        ∙ sym (append_assoc (utf8 (code c)) (bytes s) (bytes t)))

puts-append : (s t : String) (k : Console) → puts (String.◌++◌ s t) k ≡ puts t (puts s k)
unfolding puts
puts-append s t k =
    ap (λ bs. put_bytes bs k) (bytes-append s t) ∙ put_bytes-append (bytes s) (bytes t) k

-- The pieces of text one after the other, up to the first that is refused.
abbrev pub write_all : Writer → List String → Console → Bool × Console
write_all w [] k = (true, k)
write_all w (s ∷ ss) k =
    let (ok, k') = w s k in let rest = write_all w ss k' in if ok then rest else (ok, k')

write_all-write_str :
    (ss : List String) (k : Console) → write_all write_str ss k ≡ (true, puts (concat ss) k)
unfolding write_str puts bytes put_bytes
write_all-write_str [] k = refl
write_all-write_str (s ∷ ss) k =
    write_all-write_str ss (puts s k) ∙ ap (λ x. (true, x)) (sym (puts-append s (concat ss) k))

module _ (Arguments : Type 0) (fmt_write : Writer → Arguments → Console → Bool × Console) where
  -- `none` is the panic of `unreachable!`.
  unfoldable pub write_fmt : Arguments → Console → Option Console
  write_fmt args k = let (ok, k') = fmt_write write_str args k in if ok then some k' else none

  -- If `fmt::write` hands the pieces of its arguments to the writer in order, up to the first that is refused:
  -- `write_fmt` never reaches `unreachable!`, and sends what `puts` sends for the joined pieces, however the
  -- arguments are cut.
  pub write_fmt_lem :
      (pieces : Arguments → List String)
      → ((w : Writer) (args : Arguments) (k : Console)
          → fmt_write w args k ≡ write_all w (pieces args) k)
      → (args : Arguments) (k : Console) → write_fmt args k ≡ some (puts (concat (pieces args)) k)
  unfolding write_fmt
  write_fmt_lem pieces in_order args k =
      ap (λ (r : Bool × Console). if r.0 then some r.1 else none)
        (in_order write_str args k ∙ write_all-write_str (pieces args) k)
