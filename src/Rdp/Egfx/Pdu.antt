-- ===== src/Rdp/Egfx/Pdu.antt =====
-- rdp-sidecar/src/egfx.rs: the messages of the graphics channel, how a segment is cut into them, and
-- those that the client sends. The lengths read have 32 bits, so that no index overflows 64. A panic is `none`.
use avash.Base.{
  ℕ, zero, suc, ◌+◌, ◌-◌, ◌*◌, ◌/◌, ◌%◌, ◌&&◌, ◌||◌, Option, none, some, List, [], ◌∷◌, ◌++◌,
  length, take, drop, get_or, ltb, leb, if◌then◌else◌,
}
use avash.Base.Text.{Bytes}
use avash.Rdp.Frame.{le16}
use avash.Rdp.Surface.{u16_of}

-- `u16::from_le_bytes([c[i], c[i + 1]])`, under an `indexed` that has the panic of an index out of bounds.
abbrev pub u16_at : Bytes → ℕ → ℕ
u16_at c i = u16_of (get_or c i 0) (get_or c (i + 1) 0)

abbrev pub u32_at : Bytes → ℕ → ℕ
u32_at c i = u16_at c i + 65536 * u16_at c (i + 2)

-- What is done with the first `n` bytes, by an indexing that panics if they are not all there.
abbrev pub indexed {ℓ} : {A : Type ℓ} → ℕ → Bytes → Option A → Option A
indexed n c r = if leb n (length c) then r else none

-- `&o[a..b]`
abbrev pub range : Bytes → ℕ → ℕ → Option Bytes
range o a b = if leb a b && leb b (length o) then some (take (b - a) (drop a o)) else none

abbrev pub le32 : ℕ → Bytes
le32 n = n % 256 ∷ n / 256 % 256 ∷ n / 65536 % 256 ∷ n / 16777216 % 256 ∷ []

pub record Pdu : Type 0 where
  pub id : ℕ
  pub charge : Bytes

abbrev pub onto_pdus : ℕ → Option Bytes → Option (List Pdu) → Option (List Pdu)
onto_pdus id none rest = none
onto_pdus id (some charge) none = none
onto_pdus id (some charge) (some ps) = some (record { id = id; charge = charge } ∷ ps)

-- The loop of `decouper` on the bytes that are left; `none` is a panic, or the end of the fuel.
unfoldable pub split_from : ℕ → Bytes → Option (List Pdu)
split_from zero o = none
split_from (suc f) o =
    let n = u32_at o 4 in
    let rest = split_from f (drop n o) in
    let message =
      if ltb n 8 || ltb (length o) n then some [] else onto_pdus (u16_at o 0) (range o 8 n) rest in
    if leb 8 (length o) then indexed 8 o message else some []

-- `decouper`
unfoldable pub split : Bytes → Option (List Pdu)
unfolding split_from
split o = split_from (length o + 1) o

abbrev pub cmd_frame_acknowledge : ℕ
cmd_frame_acknowledge = 0x000d

abbrev pub cmd_caps_advertise : ℕ
cmd_caps_advertise = 0x0012

-- `frame_acknowledge`
unfoldable pub frame_acknowledge : ℕ → ℕ → Bytes
frame_acknowledge frame total =
    le16 cmd_frame_acknowledge ++ (le16 0 ++ (le32 20 ++ (le32 0 ++ (le32 frame ++ le32 total))))

-- `VERSIONS`: a version and its flags.
abbrev pub versions : List (ℕ × ℕ)
versions =
    (0x000a0701, 0x22)
    ∷ (0x000a0600, 0x22)
    ∷ (0x000a0502, 0x22)
    ∷ (0x000a0400, 0x22)
    ∷ (0x000a0301, 0x20)
    ∷ (0x000a0200, 0x22)
    ∷ (0x000a0100, 0)
    ∷ (0x000a0002, 0x22)
    ∷ (0x00080105, 0x02)
    ∷ (0x00080004, 0x02)
    ∷ []

unfoldable pub version_bytes : List (ℕ × ℕ) → Bytes
version_bytes [] = []
version_bytes ((version, flags) ∷ r) = le32 version ++ (le32 4 ++ (le32 flags ++ version_bytes r))

-- `caps_advertise`
unfoldable pub caps_advertise : Bytes
unfolding version_bytes
caps_advertise =
    let body = le16 (length versions) ++ version_bytes versions in
    le16 cmd_caps_advertise ++ (le16 0 ++ (le32 (length body + 8) ++ body))

-- `bgra_vers_rgba`; what does not fill a pixel is left out.
unfoldable pub bgra_to_rgba : Bytes → Bytes
bgra_to_rgba (b ∷ g ∷ r ∷ x ∷ rest) = r ∷ g ∷ b ∷ 0xff ∷ bgra_to_rgba rest
bgra_to_rgba _ = []

-- `bgra_vers_rgba_sur_place`, after `truncate`; what does not fill a pixel stays.
unfoldable pub swapped : Bytes → Bytes
swapped (b ∷ g ∷ r ∷ x ∷ rest) = r ∷ g ∷ b ∷ 0xff ∷ swapped rest
swapped o = o

unfoldable pub bgra_to_rgba_in_place : Bytes → ℕ → Bytes
unfolding swapped
bgra_to_rgba_in_place bgra size = swapped (take size bgra)

-- The pixels of `planaire`: three bytes each, to which the opacity is added.
unfoldable pub opaque : Bytes → ℕ → Bytes
opaque (r ∷ g ∷ b ∷ rest) (suc n) = r ∷ g ∷ b ∷ 0xff ∷ opaque rest n
opaque _ _ = []
