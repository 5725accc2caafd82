-- ===== src/Podman/Demux/Total.antt =====
-- pkg/podman/client-exec.go: the loop ends.
use kube_pet_node.Prelude.{
  ℕ, zero, suc, ◌+◌, ◌<◌, ◌≤◌, [], ◌∷◌, ◌++◌, take, drop, length, leb, Option, none, some, Bool,
  Bool-cases, inl, inr, ◌≡◌, refl, arith,
}
use kube_pet_node.Prelude.Text.{Text}
use kube_pet_node.Podman.Demux.{
  Stream, Writes, DemuxEnd, Refusal, read_header, stream_of, Round, uint32, resume, copied,
  line_written, write_new_line, write_of, copy_n, demux_round, demux_from, demux_raw_stream,
}

abbrev Shrinks : ℕ → Round → Type 0
Shrinks n (Round.go_on done rest) = length rest < n
Shrinks n (Round.stop done end) = Unit {0}

length-drop : (n : ℕ) (s : Text) → length (drop n s) ≤ length s
length-drop zero s = omega arith
length-drop (suc n) [] = omega arith
length-drop (suc n) (c ∷ s) = omega (arith, length-drop n s)

module _ (refusal : Writes → Stream → Text → Refusal) (add_new_lines : Bool) where
  line_written-Shrinks :
      (n : ℕ) (output : Stream) (rest : Text) (done : Writes) (answer : Refusal)
      → length rest < n
      → Shrinks n (line_written refusal add_new_lines output rest done answer)
  unfolding line_written
  line_written-Shrinks n output rest done none h = h
  line_written-Shrinks n output rest done (some (k, e)) h = tt

  write_new_line-Shrinks :
      (n : ℕ) (output : Stream) (rest : Text) (done : Writes)
      → length rest < n
      → Shrinks n (write_new_line refusal add_new_lines output rest done)
  unfolding write_new_line
  write_new_line-Shrinks n output rest done h = elim (Bool-cases add_new_lines) [
    | inr without ↦ rw without h
    | inl with_line ↦
        rw with_line (line_written-Shrinks n output rest done (refusal done output (10 ∷ [])) h)
  ]

  copied-Shrinks :
      (m n : ℕ) (output : Stream) (rest : Text) (done : Writes) (answer : Refusal)
      → length rest < m
      → Shrinks m (copied refusal add_new_lines output n rest done answer)
  unfolding copied
  copied-Shrinks m n output rest done (some (k, e)) short = tt
  copied-Shrinks m n output rest done none short = elim (Bool-cases (leb n (length rest))) [
    | inr cut ↦ rw cut tt
    | inl whole ↦ rw whole (
        write_new_line-Shrinks m output (drop n rest) (done ++ write_of output (take n rest))
          (omega (arith, short, length-drop n rest)))
  ]

  demux_round-Shrinks :
      (input : Text) (done : Writes)
      → Shrinks (length input) (demux_round refusal add_new_lines input (read_header input) done)
  unfolding demux_round read_header copy_n
  demux_round-Shrinks (k ∷ x ∷ y ∷ z ∷ a ∷ b ∷ c ∷ d ∷ rest) done =
      copied-Shrinks (length (k ∷ x ∷ y ∷ z ∷ a ∷ b ∷ c ∷ d ∷ rest)) (uint32 a b c d) (stream_of k)
        rest done _ (omega arith)
  demux_round-Shrinks [] done = tt
  demux_round-Shrinks (k ∷ []) done = tt
  demux_round-Shrinks (k ∷ x ∷ []) done = tt
  demux_round-Shrinks (k ∷ x ∷ y ∷ []) done = tt
  demux_round-Shrinks (k ∷ x ∷ y ∷ z ∷ []) done = tt
  demux_round-Shrinks (k ∷ x ∷ y ∷ z ∷ a ∷ []) done = tt
  demux_round-Shrinks (k ∷ x ∷ y ∷ z ∷ a ∷ b ∷ []) done = tt
  demux_round-Shrinks (k ∷ x ∷ y ∷ z ∷ a ∷ b ∷ c ∷ []) done = tt

  resume-ends :
      (n : ℕ) (again : Writes → Text → Option (Writes × DemuxEnd)) (r : Round)
      → Shrinks n r
      → ((more : Writes) (rest : Text)
          → length rest < n
          → (e : Writes × DemuxEnd) × (again more rest ≡ some e))
      → (e : Writes × DemuxEnd) × (resume refusal add_new_lines again r ≡ some e)
  unfolding resume
  resume-ends n again (Round.stop all end) s h = ((all, end), refl)
  resume-ends n again (Round.go_on more rest) s h = h more rest s

  demux_from-ends :
      (n : ℕ) (done : Writes) (input : Text)
      → length input < n
      → (r : Writes × DemuxEnd) × (demux_from refusal add_new_lines n done input ≡ some r)
  unfolding demux_from
  demux_from-ends zero done input h = absurd (omega (arith, h))
  demux_from-ends (suc n) done input h =
      resume-ends (length input) (demux_from refusal add_new_lines n)
        (demux_round refusal add_new_lines input (read_header input) done)
        (demux_round-Shrinks input done)
        (λ more rest s. demux_from-ends n more rest (omega (arith, h, s)))

  -- On every input, and whatever the outputs refuse, the loop comes to an end.
  pub demux_raw_stream-ends :
      (input : Text)
      → (r : Writes × DemuxEnd) × (demux_raw_stream refusal add_new_lines input ≡ some r)
  unfolding demux_raw_stream
  demux_raw_stream-ends input = demux_from-ends (length input + 1) [] input (omega arith)
