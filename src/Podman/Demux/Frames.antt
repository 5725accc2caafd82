-- ===== src/Podman/Demux/Frames.antt =====
-- pkg/podman/client-exec.go: what was sent in packets comes out of them.
use kube_pet_node.Prelude.{
  ℕ, zero, suc, ◌+◌, ◌/◌, ◌%◌, ◌^◌, ◌<◌, List, [], ◌∷◌, ◌++◌, append_assoc, append-nil, flat_map,
  All, take, drop, length, leb, le→leb, length-append, take-append, none, some, Bool, true,
  Bool-cases, inl, inr, if◌then◌else◌, ◌≡◌, refl, ap, ◌∙◌, arith,
}
use kube_pet_node.Prelude.Text.{Text}
use kube_pet_node.Podman.Demux.{
  Stream, Writes, DemuxEnd, Refusal, uint32, read_header, header_end, stream_of, Round, write_of,
  write_text, resume, copied, line_written, write_new_line, copy_n, demux_round, demux_from,
  demux_raw_stream,
}

-- A packet for one of the outputs.
abbrev pub Packet : Type 0
Packet = Stream × Text

abbrev kind_of : Stream → ℕ
kind_of Stream.stdout = 1
kind_of Stream.stderr = 2

-- binary.BigEndian.PutUint32
abbrev put_uint32 : ℕ → Text → Text
put_uint32 n rest = n / 16777216 % 256 ∷ n / 65536 % 256 ∷ n / 256 % 256 ∷ n % 256 ∷ rest

-- How a packet is sent.
abbrev pub frame : Packet → Text
frame (output, payload) = kind_of output ∷ 0 ∷ 0 ∷ 0 ∷ put_uint32 (length payload) payload

-- What is written of a packet.
abbrev pub packet_writes : Bool → Packet → Writes
packet_writes add_new_lines (output, payload) =
    write_of output payload ++ (if add_new_lines then (output, 10 ∷ []) ∷ [] else [])

uint32-put :
    (n : ℕ)
    → n < 2 ^ 32
    → uint32 (n / 16777216 % 256) (n / 65536 % 256) (n / 256 % 256) (n % 256) ≡ n
uint32-put n h = omega (arith, h)

stream_of-kind_of : (output : Stream) → stream_of (kind_of output) ≡ output
unfolding stream_of
stream_of-kind_of Stream.stdout = refl
stream_of-kind_of Stream.stderr = refl

drop-append : (s t : Text) → drop (length s) (s ++ t) ≡ t
drop-append [] t = refl
drop-append (c ∷ s) t = drop-append s t

module _ (refusal : Writes → Stream → Text → Refusal) (add_new_lines : Bool)
    (willing : (done : Writes) (output : Stream) (t : Text) → refusal done output t ≡ none) where
  write_text-none :
      (done : Writes) (output : Stream) (t : Text)
      → write_text refusal add_new_lines done output t ≡ none
  unfolding write_text
  write_text-none done output [] = refl
  write_text-none done output (c ∷ t) = willing done output (c ∷ t)

  line_written-goes :
      (output : Stream) (rest : Text) (done : Writes) (answer : Refusal)
      → answer ≡ none
      → line_written refusal add_new_lines output rest done answer
        ≡ Round.go_on (done ++ (output, 10 ∷ []) ∷ []) rest
  unfolding line_written
  line_written-goes output rest done none e = refl
  line_written-goes output rest done (some a) e = cc

  write_new_line-goes :
      (output : Stream) (rest : Text) (done : Writes)
      → write_new_line refusal add_new_lines output rest done
        ≡ Round.go_on (done ++ (if add_new_lines then (output, 10 ∷ []) ∷ [] else [])) rest
  unfolding write_new_line
  write_new_line-goes output rest done = elim (Bool-cases add_new_lines) [
    | inl on ↦ rw on (
        line_written-goes output rest done (refusal done output (10 ∷ []))
          (willing done output (10 ∷ [])))
    | inr off ↦ rw (off, append-nil) refl
  ]

  copied-goes :
      (output : Stream) (payload rest : Text) (done : Writes) (answer : Refusal)
      → answer ≡ none
      → copied refusal add_new_lines output (length payload) (payload ++ rest) done answer
        ≡ Round.go_on (done ++ packet_writes add_new_lines (output, payload)) rest
  unfolding copied
  copied-goes output payload rest done none e =
      let fits : leb (length payload) (length (payload ++ rest)) ≡ true =
        le→leb _ _ (omega (arith, length-append payload rest)) in
      rw (fits, take-append payload rest, drop-append payload rest)
        (write_new_line-goes output rest (done ++ write_of output payload) ∙ rw append_assoc refl)
  copied-goes output payload rest done (some a) e = cc

  demux_round-frame :
      (output : Stream) (payload rest : Text) (done : Writes)
      → length payload < 2 ^ 32
      → demux_round refusal add_new_lines
          (frame (output, payload) ++ rest)
          (read_header (frame (output, payload) ++ rest))
          done
        ≡ Round.go_on (done ++ packet_writes add_new_lines (output, payload)) rest
  unfolding demux_round read_header copy_n
  demux_round-frame output payload rest done short =
      rw (stream_of-kind_of output, uint32-put (length payload) short)
        (copied-goes output payload rest done _
          (write_text-none done output (take (length payload) (payload ++ rest))))

  demux_from-frames :
      (n : ℕ) (packets : List Packet) (done : Writes)
      → All (λ (p : Packet). length p.1 < 2 ^ 32) packets
      → length (flat_map frame packets) < n
      → demux_from refusal add_new_lines n done (flat_map frame packets)
        ≡ some (done ++ flat_map (packet_writes add_new_lines) packets, DemuxEnd.eof)
  unfolding demux_from
  demux_from-frames zero packets done short h = absurd (omega (arith, h))
  demux_from-frames (suc n) [] done short h =
      unfold demux_round read_header header_end resume in rw append-nil refl
  demux_from-frames (suc n) ((output, payload) ∷ packets) done (first, short) h =
      ap (resume refusal add_new_lines (demux_from refusal add_new_lines n))
        (demux_round-frame output payload (flat_map frame packets) done first)
      ∙ unfold resume in
        (demux_from-frames n packets (done ++ packet_writes add_new_lines (output, payload)) short
            (omega (arith, h, length-append (frame (output, payload)) (flat_map frame packets)))
          ∙ rw append_assoc refl)

  -- When the outputs refuse nothing, and podman sends packets one after the other, each shorter than
  -- 2 ^ 32, the payload of each packet is written to its output, in order, with a line feed behind it
  -- if that is asked for, and the end is EOF.
  pub demux_raw_stream-frames :
      (packets : List Packet)
      → All (λ (p : Packet). length p.1 < 2 ^ 32) packets
      → demux_raw_stream refusal add_new_lines (flat_map frame packets)
        ≡ some (flat_map (packet_writes add_new_lines) packets, DemuxEnd.eof)
  unfolding demux_raw_stream
  demux_raw_stream-frames packets short =
      demux_from-frames (length (flat_map frame packets) + 1) packets [] short (omega arith)
