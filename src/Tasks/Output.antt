-- ===== src/Tasks/Output.antt =====
-- `_cap_task_output` of SQLiteStore (src/hermes_managed_network/storage.py), on the UTF-8 of the output.
use Prim.Native.Char.{Char, len_utf8, len_utf8_def, code, width}
use Prim.Native.Nat.{compare, Ordering}
use Prim.Native.String.append
use Prim.Native.String.len
use Prim.Native.String.{len, ◌++◌ as join}
use text.Mathlib.TextPositions.{len-append}
use hermes_managed_network.Prelude.{
  ℕ, ◌+◌, ◌-◌, ◌*◌, ◌≤◌, ◌<◌, ◌≡◌, refl, sym, ◌∙◌, ap, leb→le, leb-false→lt, String, leb, arith,
  if◌then◌else◌, Bool-cases, inl, inr,
}

abbrev pub task_output_max_bytes : ℕ
task_output_max_bytes = 64 * 1024

abbrev pub task_output_truncated_marker : String
task_output_truncated_marker = "\n[hmn: output truncated to 65536 bytes]"

-- encoded[:room].decode("utf-8", errors="ignore"): the characters whose bytes lie within the room
unfoldable pub take_bytes : ℕ → String → String
take_bytes room String.[] = ""
take_bytes room (String.◌∷◌ c s) =
    let rest = take_bytes (room - len_utf8 c) s in
    if leb (len_utf8 c) room then String.◌∷◌ c rest else ""

unfoldable pub cap_task_output : String → String
unfolding take_bytes
cap_task_output value =
    if leb (len value) task_output_max_bytes
    then value
    else join (take_bytes (task_output_max_bytes - len task_output_truncated_marker) value)
        task_output_truncated_marker

-- The text that is kept fits.
take_bytes_fits : (room : ℕ) (s : String) → len (take_bytes room s) ≤ room
unfolding take_bytes
take_bytes_fits room String.[] = omega arith
take_bytes_fits room (String.◌∷◌ c s) = elim (Bool-cases (leb (len_utf8 c) room)) [
  | inl e ↦ rw e (
      omega (
        arith,
        len.cons c (take_bytes (room - len_utf8 c) s),
        take_bytes_fits (room - len_utf8 c) s,
        leb→le (len_utf8 c) room e,
      ))
  | inr e ↦ rw e (omega arith)
]

width_le : (a b c : Ordering) → width a b c ≤ 4
width_le a b c = ground arith

len_utf8_le : (c : Char) → len_utf8 c ≤ 4
len_utf8_le c =
    let e : len_utf8 c
        ≡ width (compare (code c) 128) (compare (code c) 2048) (compare (code c) 65536) =
      len_utf8_def c in
    rw e (width_le (compare (code c) 128) (compare (code c) 2048) (compare (code c) 65536))

-- Of a text that does not fit, the first character that is not kept has no room.
take_bytes_full :
    (room : ℕ) (s : String)
    → room < len s
    → (c : Char) × (rest : String) × (s ≡ join (take_bytes room s) (String.◌∷◌ c rest))
      × (room < len (take_bytes room s) + len_utf8 c)
unfolding take_bytes
take_bytes_full room String.[] h = absurd (omega arith)
take_bytes_full room (String.◌∷◌ c s) h = elim (Bool-cases (leb (len_utf8 c) room)) [
  | inl e ↦
      let (d, rest, q, full) =
        take_bytes_full (room - len_utf8 c) s
          (omega (arith, len.cons c s, leb→le (len_utf8 c) room e)) in
      (
        d,
        rest,
        rw e (
            ap (λ t. String.◌∷◌ c t) q
            ∙ sym (append.cons c (take_bytes (room - len_utf8 c) s) (String.◌∷◌ d rest))),
        rw e (
            omega (
              arith,
              len.cons c (take_bytes (room - len_utf8 c) s),
              leb→le (len_utf8 c) room e,
              full,
            )),
      )
  | inr e ↦ (
    c,
    s,
    rw e (sym (append.nil (String.◌∷◌ c s))),
    rw e (omega (arith, leb-false→lt (len_utf8 c) room e)),
  )
]

-- an output as it is stored: whole, or cut
pub data Capped (value stored : String) : Type 0 where
  whole : len value ≤ task_output_max_bytes → stored ≡ value → Capped value stored
  cut :
      (kept rest : String) (next : Char)
      → task_output_max_bytes < len value
      → value ≡ join kept (String.◌∷◌ next rest)
      → stored ≡ join kept task_output_truncated_marker
      → len stored ≤ task_output_max_bytes
      → task_output_max_bytes < len stored + len_utf8 next
      → task_output_max_bytes ≤ len stored + 3
      → Capped value stored

-- The output of a task is stored whole if it has at most 65536 bytes; else what is stored is a
-- beginning of it with the marker, has at most 65536 bytes, would have more with the next character of
-- the output, and has at least 65533.
pub cap_task_output_bounds : (value : String) → Capped value (cap_task_output value)
unfolding cap_task_output
cap_task_output_bounds value = elim (Bool-cases (leb (len value) task_output_max_bytes)) [
  | inl e ↦ rw e (Capped.whole (leb→le (len value) task_output_max_bytes e) refl)
  | inr e ↦
      let kept = take_bytes 65497 value in
      let long : task_output_max_bytes < len value =
        leb-false→lt (len value) task_output_max_bytes e in
      let (next, rest, q, full) = take_bytes_full 65497 value (omega arith) in
      let size : len (join kept task_output_truncated_marker) ≡ len kept + 39 =
        len-append kept task_output_truncated_marker in
      rw e (
        Capped.cut kept rest next long q refl (omega (arith, size, take_bytes_fits 65497 value))
          (omega (arith, size, full)) (omega (arith, size, full, len_utf8_le next)))
]
