-- ===== src/Transfer/Sending.antt =====
-- What sendFileToClient puts on the wire.
use school_information_manag.Prelude.{
  ℕ, zero, suc, ◌+◌, ◌/◌, ◌%◌, ◌^◌, ◌≤◌, ◌≡◌, refl, sym, ap, ◌∙◌, Bool, true, false, some, List, [],
  ◌∷◌, ◌++◌, append-nil, append_assoc, arith, length, take, drop, take-append-drop, length-take,
  length-drop, All, Bytes,
}
use school_information_manag.Proto.{hdr_bytes, htonl}
use school_information_manag.Net.{outbox_of, send}
use school_information_manag.Net.Stream.{concat}
use school_information_manag.Transfer.{buffer_size, send_chunks, file_hdr, send_file_to_client}

-- The content in pieces of 1024 bytes, the last of which may be shorter.
pub chunks : ℕ → Bytes → List Bytes
chunks zero content = []
chunks (suc fuel) [] = []
chunks (suc fuel) (b ∷ bs) = take buffer_size (b ∷ bs) ∷ chunks fuel (drop buffer_size (b ∷ bs))

concat-chunks :
    (fuel : ℕ) (content : Bytes) → length content ≤ fuel → concat (chunks fuel content) ≡ content
unfolding chunks concat
concat-chunks zero [] h = refl
concat-chunks zero (b ∷ bs) h = absurd (omega arith)
concat-chunks (suc fuel) [] h = refl
concat-chunks (suc fuel) (b ∷ bs) h =
    rw
      (concat-chunks fuel (drop buffer_size (b ∷ bs))
        (omega (arith, length-drop buffer_size (b ∷ bs))))
      (take-append-drop buffer_size (b ∷ bs))

chunks-le : (fuel : ℕ) (content : Bytes) → All (λ c. length c ≤ buffer_size) (chunks fuel content)
unfolding chunks
chunks-le zero content = tt
chunks-le (suc fuel) [] = tt
chunks-le (suc fuel) (b ∷ bs) =
    (omega (arith, length-take buffer_size (b ∷ bs)), chunks-le fuel (drop buffer_size (b ∷ bs)))

send_chunks-outbox_of :
    (fuel : ℕ) (content : Bytes) (sent : List Bytes)
    → send_chunks fuel content (outbox_of sent) ≡ outbox_of (sent ++ chunks fuel content)
unfolding send_chunks chunks send
send_chunks-outbox_of zero content sent = ap outbox_of (sym (append-nil sent))
send_chunks-outbox_of (suc fuel) [] sent = ap outbox_of (sym (append-nil sent))
send_chunks-outbox_of (suc fuel) (b ∷ bs) sent =
    send_chunks-outbox_of fuel (drop buffer_size (b ∷ bs)) (sent ++ take buffer_size (b ∷ bs) ∷ [])
    ∙ ap outbox_of (
        append_assoc sent (take buffer_size (b ∷ bs) ∷ [])
          (chunks fuel (drop buffer_size (b ∷ bs))))

-- All that one call sends: the header, then the chunks.
pub packets : ℕ → Bytes → List Bytes
packets input_cmd content =
    hdr_bytes (file_hdr input_cmd content) ∷ chunks (suc (length content)) content

pub send_file_to_client-outbox_of :
    (input_cmd : ℕ) (content : Bytes) (sent : List Bytes)
    → send_file_to_client (some content) input_cmd (outbox_of sent)
      ≡ outbox_of (sent ++ packets input_cmd content)
unfolding send_file_to_client packets send
send_file_to_client-outbox_of input_cmd content sent =
    send_chunks-outbox_of (suc (length content)) content
      (sent ++ hdr_bytes (file_hdr input_cmd content) ∷ [])
    ∙ ap outbox_of (
        append_assoc sent (hdr_bytes (file_hdr input_cmd content) ∷ [])
          (chunks (suc (length content)) content))

pub send_file_to_client_pieces :
    (input_cmd : ℕ) (content : Bytes)
    → (pieces : List Bytes) × (send_file_to_client (some content) input_cmd (outbox_of [])
        ≡ outbox_of (hdr_bytes (file_hdr input_cmd content) ∷ pieces))
      × (concat pieces ≡ content)
      × All (λ c. length c ≤ buffer_size) pieces
send_file_to_client_pieces input_cmd content = (
  chunks (suc (length content)) content,
  unfold packets in send_file_to_client-outbox_of input_cmd content [],
  concat-chunks (suc (length content)) content (omega arith),
  chunks-le (suc (length content)) content,
)

-- The six bytes that stand in front of a file of this size: the command with its low byte first, and
-- the size with its high byte first.
abbrev pub wire_hdr : ℕ → ℕ → Bytes
wire_hdr cmd size =
    cmd % 256
    ∷ cmd / 256 % 256
    ∷ size / 2 ^ 24 % 256
    ∷ size / 2 ^ 16 % 256
    ∷ size / 256 % 256
    ∷ size % 256
    ∷ []

hdr_bytes-file_hdr :
    (input_cmd : ℕ) (content : Bytes)
    → hdr_bytes (file_hdr input_cmd content) ≡ wire_hdr (input_cmd + 1) (length content)
unfolding hdr_bytes htonl
hdr_bytes-file_hdr input_cmd content = ground arith

-- When every send succeeds, what goes out is a packet of six bytes, the command one above the
-- request with its low byte first and the size with its high byte first, and then pieces of at most
-- 1024 bytes each, which together are the whole file.
pub send_file_to_client_complete :
    (input_cmd : ℕ) (content : Bytes)
    → (pieces : List Bytes) × (send_file_to_client (some content) input_cmd (outbox_of [])
        ≡ outbox_of (wire_hdr (input_cmd + 1) (length content) ∷ pieces))
      × (concat pieces ≡ content)
      × All (λ c. length c ≤ 1024) pieces
send_file_to_client_complete input_cmd content =
    let (pieces, sent, whole, sizes) = send_file_to_client_pieces input_cmd content in
    let same = hdr_bytes-file_hdr input_cmd content in
    (pieces, sent ∙ ap (λ hdr. outbox_of (hdr ∷ pieces)) same, whole, sizes)

-- The outbox after some of these packets in order, from the first on.
abbrev Prefix : List Bytes → List Bytes → List Bytes → Type 0
Prefix before whole sent = (k : ℕ) × (sent ≡ before ++ take k whole)

Prefix-cons :
    (before whole : List Bytes) (p : Bytes) {sent : List Bytes}
    → Prefix (before ++ p ∷ []) whole sent
    → Prefix before (p ∷ whole) sent
Prefix-cons before whole p (k, e) = (suc k, e ∙ append_assoc before (p ∷ []) (take k whole))

send_chunks-Prefix :
    (fuel : ℕ) (content : Bytes) (sent : List Bytes) (outcomes : List Bool)
    → Prefix sent
        (chunks fuel content)
        (send_chunks fuel content (record { sent = sent; outcomes = outcomes })).sent
unfolding send_chunks chunks send
send_chunks-Prefix zero content sent outcomes = (0, sym (append-nil sent))
send_chunks-Prefix (suc fuel) [] sent outcomes = (0, sym (append-nil sent))
send_chunks-Prefix (suc fuel) (b ∷ bs) sent [] =
    Prefix-cons sent _ _ (send_chunks-Prefix fuel (drop buffer_size (b ∷ bs)) _ [])
send_chunks-Prefix (suc fuel) (b ∷ bs) sent (true ∷ later) =
    Prefix-cons sent _ _ (send_chunks-Prefix fuel (drop buffer_size (b ∷ bs)) _ later)
send_chunks-Prefix (suc fuel) (b ∷ bs) sent (false ∷ later) = (0, sym (append-nil sent))

-- Whatever sends fail, what has gone out is an initial part of the header and the chunks: nothing is
-- sent after a failure.
pub send_file_to_client-Prefix :
    (input_cmd : ℕ) (content : Bytes) (sent : List Bytes) (outcomes : List Bool)
    → (k : ℕ) × ((send_file_to_client
          (some content)
          input_cmd
          (record { sent = sent; outcomes = outcomes })).sent
        ≡ sent ++ take k (packets input_cmd content))
unfolding send_file_to_client packets send
send_file_to_client-Prefix input_cmd content sent [] =
    Prefix-cons sent _ _ (send_chunks-Prefix (suc (length content)) content _ [])
send_file_to_client-Prefix input_cmd content sent (true ∷ later) =
    Prefix-cons sent _ _ (send_chunks-Prefix (suc (length content)) content _ later)
send_file_to_client-Prefix input_cmd content sent (false ∷ later) = (0, sym (append-nil sent))
