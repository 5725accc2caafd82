-- ===== src/Podman/Demux.antt =====
-- pkg/podman/client-exec.go: `DemuxRawStream`, which takes podman's stream of packets apart. Each has a
-- header of eight bytes: which output it is for, three that are not read, and its length.
pub mod Frames
pub mod Total
use kube_pet_node.Prelude.{
  ℕ, zero, suc, ◌+◌, ◌*◌, List, [], ◌∷◌, ◌++◌, take, drop, length, leb, Option, none, some, Bool,
  if◌then◌else◌,
}
use kube_pet_node.Prelude.Text.{Text}

pub data Stream : Type 0 where
  stdout : Stream
  stderr : Stream

-- What was written where, in order; a packet's text is one here, in however many writes it was
-- copied.
abbrev pub Writes : Type 0
Writes = List (Stream × Text)

-- How the reading ends: between two packets, within one, or by an error of a writer.
pub data DemuxEnd : Type 0 where
  eof : DemuxEnd
  unexpected_eof : DemuxEnd
  refused : Text → DemuxEnd

pub record Header : Type 0 where
  pub kind : ℕ
  pub pkt_len : ℕ
  pub rest : Text

-- binary.BigEndian.Uint32
abbrev pub uint32 : ℕ → ℕ → ℕ → ℕ → ℕ
uint32 a b c d = a * 16777216 + b * 65536 + c * 256 + d

-- `io.ReadFull(input, header)`, where that many bytes are left.
unfoldable pub read_header : Text → Option Header
read_header (kind ∷ _ ∷ _ ∷ _ ∷ a ∷ b ∷ c ∷ d ∷ rest) =
    some (record { kind = kind; pkt_len = uint32 a b c d; rest = rest })
read_header _ = none

header_end : Text → DemuxEnd
header_end [] = DemuxEnd.eof
header_end (c ∷ input) = DemuxEnd.unexpected_eof

unfoldable pub stream_of : ℕ → Stream
stream_of kind = if leb 2 kind then Stream.stderr else Stream.stdout

-- A round of the loop, or its end.
pub data Round : Type 0 where
  go_on : Writes → Text → Round
  stop : Writes → DemuxEnd → Round

-- What is written of a text; nothing is written of an empty one.
abbrev pub write_of : Stream → Text → Writes
write_of output [] = []
write_of output (c ∷ t) = (output, c ∷ t) ∷ []

-- What an output answers when a text is copied to it, in as many writes as that takes: how many bytes
-- of it were written before it refused, and its error; or none, and all is written.
abbrev pub Refusal : Type 0
Refusal = Option (ℕ × Text)

-- The outputs' answers may depend on what was written before.
module _ (refusal : Writes → Stream → Text → Refusal) (add_new_lines : Bool) where
  write_text : Writes → Stream → Text → Refusal
  write_text done output [] = none
  write_text done output (c ∷ t) = refusal done output (c ∷ t)

  line_written : Stream → Text → Writes → Refusal → Round
  line_written output rest done (some (k, e)) =
      Round.stop (done ++ write_of output (take k (10 ∷ []))) (DemuxEnd.refused e)
  line_written output rest done none = Round.go_on (done ++ (output, 10 ∷ []) ∷ []) rest

  write_new_line : Stream → Text → Writes → Round
  unfolding line_written
  write_new_line output rest done =
      if add_new_lines
      then line_written output rest done (refusal done output (10 ∷ []))
      else Round.go_on done rest

  -- `io.CopyN` gives EOF when the input ends first.
  copied : Stream → ℕ → Text → Writes → Refusal → Round
  unfolding write_new_line
  copied output n rest done (some (k, e)) =
      Round.stop (done ++ write_of output (take k (take n rest))) (DemuxEnd.refused e)
  copied output n rest done none =
      if leb n (length rest)
      then write_new_line output (drop n rest) (done ++ write_of output (take n rest))
      else Round.stop (done ++ write_of output (take n rest)) DemuxEnd.eof

  copy_n : Stream → ℕ → Text → Writes → Round
  unfolding copied write_text
  copy_n output n rest done = copied output n rest done (write_text done output (take n rest))

  demux_round : Text → Option Header → Writes → Round
  unfolding header_end copy_n stream_of
  demux_round input none done = Round.stop done (header_end input)
  demux_round input (some h) done = copy_n (stream_of h.kind) h.pkt_len h.rest done

  resume : (Writes → Text → Option (Writes × DemuxEnd)) → Round → Option (Writes × DemuxEnd)
  resume again (Round.stop all end) = some (all, end)
  resume again (Round.go_on more rest) = again more rest

  -- The loop, which takes at least eight bytes in each round; none is that the fuel ran out.
  demux_from : ℕ → Writes → Text → Option (Writes × DemuxEnd)
  unfolding demux_round read_header resume
  demux_from zero done input = none
  demux_from (suc n) done input = resume (demux_from n) (demux_round input (read_header input) done)

  unfoldable pub demux_raw_stream : Text → Option (Writes × DemuxEnd)
  unfolding demux_from
  demux_raw_stream input = demux_from (length input + 1) [] input
