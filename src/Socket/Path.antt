-- ===== src/Socket/Path.antt =====
-- `format_sockpath`: the placeholders of a socket path.

use ip2unix.Base.{
  All, List, Option, [], ap, arith, if◌then◌else◌, none, refl, some, ℕ, ◌++◌, ◌==◌, ◌∙◌, ◌∷◌, ◌≡◌,
  ◌≢◌,
}
use ip2unix.Base.Text.{Bytes, codes}
use ip2unix.Rules.{SocketType, invalid, tcp, udp}
use ip2unix.SockAddr.{Inet, SockAddr, get_host, get_port_str}

unfoldable pub type_name : SocketType → Bytes
type_name tcp = codes "tcp"
type_name udp = codes "udp"
type_name invalid = codes "unknown"

abbrev pub or_unknown : Option Bytes → Bytes
or_unknown none = codes "unknown"
or_unknown (some text) = text

-- An independent description: a path is made of pieces.
pub data Piece : Type 0 where
  percent host_part port_part type_part : Piece
  plain stray : ℕ → Piece

-- How a piece is written in a rule.
unfoldable pub write : Piece → Bytes
write percent = codes "%%"
write host_part = codes "%a"
write port_part = codes "%p"
write type_part = codes "%t"
write (plain c) = c ∷ []
write (stray c) = b'%' ∷ c ∷ []

-- A plain character is not `%`, and a `%` that begins no placeholder has another one behind it.
abbrev pub PieceOk : Piece → Type 0
PieceOk (plain c) = c ≢ b'%'
PieceOk (stray c) = (c ≢ b'%') × (c ≢ b'a') × (c ≢ b'p') × (c ≢ b't')
PieceOk _ = Unit

unfoldable pub written : List Piece → Bytes
unfolding write
written [] = []
written (p ∷ ps) = write p ++ written ps

module _ (net : Inet) (type : SocketType) (addr : SockAddr) where
  -- What stands for `%` and the character behind it, if it is a placeholder.
  unfoldable pub placeholder : ℕ → Option Bytes
  unfolding type_name get_host get_port_str
  placeholder c =
      if c == b'%'
      then some (b'%' ∷ [])
      else if c == b'a'
      then some (or_unknown (get_host net addr))
      else if c == b'p'
      then some (or_unknown (get_port_str addr))
      else if c == b't'
      then some (type_name type)
      else none

  unfoldable pub format_sockpath : Bytes → Bytes
  unfolding placeholder
  format_sockpath [] = []
  format_sockpath (c ∷ []) = c ∷ []
  format_sockpath (c ∷ d ∷ path) =
      let further = format_sockpath (d ∷ path) in
      let behind = format_sockpath path in
      elim (if c == b'%' then placeholder d else none) [
        | none ↦ c ∷ further
        | some text ↦ text ++ behind
      ]

  -- What it stands for.
  unfoldable pub meaning : Piece → Bytes
  meaning percent = codes "%"
  meaning host_part = or_unknown (get_host net addr)
  meaning port_part = or_unknown (get_port_str addr)
  meaning type_part = type_name type
  meaning (plain c) = c ∷ []
  meaning (stray c) = b'%' ∷ c ∷ []

  unfoldable pub meant : List Piece → Bytes
  unfolding meaning
  meant [] = []
  meant (p ∷ ps) = meaning p ++ meant ps

  format-plain : (c : ℕ) (s : Bytes) → c ≢ b'%' → format_sockpath (c ∷ s) ≡ c ∷ format_sockpath s
  unfolding format_sockpath
  format-plain c [] h = refl
  format-plain c (d ∷ s) h = ground arith

  format-placeholder :
      (c : ℕ) (s text : Bytes)
      → placeholder c ≡ some text
      → format_sockpath (b'%' ∷ c ∷ s) ≡ text ++ format_sockpath s
  unfolding format_sockpath
  format-placeholder c s text h = rw (h, format_sockpath) refl

  format-stray :
      (c : ℕ) (s : Bytes)
      → placeholder c ≡ none
      → format_sockpath (b'%' ∷ c ∷ s) ≡ b'%' ∷ format_sockpath (c ∷ s)
  unfolding format_sockpath
  format-stray c s h = rw (h, format_sockpath) refl

  format-piece :
      (p : Piece) (s : Bytes)
      → PieceOk p
      → format_sockpath (write p ++ s) ≡ meaning p ++ format_sockpath s
  unfolding write meaning placeholder
  format-piece percent s h = format-placeholder b'%' s _ refl
  format-piece host_part s h = format-placeholder b'a' s _ refl
  format-piece port_part s h = format-placeholder b'p' s _ refl
  format-piece type_part s h = format-placeholder b't' s _ refl
  format-piece (plain c) s h = format-plain c s h
  format-piece (stray c) s h =
      format-stray c s (ground arith) ∙ ap (◌∷◌ b'%') (format-plain c s h.0)

  -- A path that is written out of pieces becomes what they stand for: `%%` a percent sign, `%a` the
  -- host, `%p` the port and `%t` the type of the socket, each `unknown` where there is none, while
  -- other characters stay as they are, also a `%` in front of a character that is none of the four.
  pub format_sockpath-written :
      (ps : List Piece) → All PieceOk ps → format_sockpath (written ps) ≡ meant ps
  unfolding written meant format_sockpath
  format_sockpath-written [] h = refl
  format_sockpath-written (p ∷ ps) h =
      format-piece p (written ps) h.0 ∙ ap (◌++◌ (meaning p)) (format_sockpath-written ps h.1)
