-- ===== src/Terminal/Batch/Stream.antt =====
-- The bytes that go through the batching of terminal output, with their kinds
-- (src-tauri/src/remote/runtime_terminal.rs).
use hlem_ssh.Prelude.{
  if◌then◌else◌, ℕ, zero, suc, ◌≤◌, ◌<◌, ◌≡◌, refl, sym, ap, ◌∙◌, Bool, true, false, List, [], ◌∷◌,
  ◌++◌, none, some, length, take, drop, leb, arith, append_assoc, append-nil, length-drop,
  take-append-drop, if_cases, Bool-cases, inl, inr,
}
use hlem_ssh.Prelude.Text.{Bytes}
use hlem_ssh.Terminal.Batch.{
  Kind, PendingTerminalOutput, Batch, Message, kind_of, same_kind, new, chunks, extended, settle,
  add_chunks, must_go, flushed, push, receive, terminal_batch_bytes,
}

abbrev pub tagged : Kind → Bytes → List (Kind × ℕ)
tagged kind [] = []
tagged kind (b ∷ bytes) = (kind, b) ∷ tagged kind bytes

-- The bytes of frames, each with the kind that the frame's header tells.
abbrev pub stream : List PendingTerminalOutput → List (Kind × ℕ)
stream [] = []
stream (p ∷ ps) = tagged (kind_of p) p.payload ++ stream ps

abbrev pub said : List Message → List (Kind × ℕ)
said [] = []
said (Message.data_ kind urgent bytes ∷ ms) = tagged kind bytes ++ said ms
said (Message.tick ∷ ms) = said ms
said (Message.exit text ∷ ms) = tagged Kind.system text ++ said ms

tagged-append : (k : Kind) (xs ys : Bytes) → tagged k (xs ++ ys) ≡ tagged k xs ++ tagged k ys
tagged-append k [] ys = refl
tagged-append k (x ∷ xs) ys = ap (λ l. (k, x) ∷ l) (tagged-append k xs ys)

pub stream-append :
    (ps qs : List PendingTerminalOutput) → stream (ps ++ qs) ≡ stream ps ++ stream qs
stream-append [] qs = refl
stream-append (p ∷ ps) qs =
    ap (λ l. tagged (kind_of p) p.payload ++ l) (stream-append ps qs)
    ∙ sym (append_assoc (tagged (kind_of p) p.payload) (stream ps) (stream qs))

kind_of-new : (k : Kind) (bytes : Bytes) → kind_of (new k bytes) ≡ k
unfolding kind_of
kind_of-new Kind.output bytes = refl
kind_of-new Kind.error bytes = refl
kind_of-new Kind.system bytes = refl

same_kind-eq : (a b : Kind) → same_kind a b ≡ true → a ≡ b
same_kind-eq Kind.output Kind.output h = refl
same_kind-eq Kind.error Kind.error h = refl
same_kind-eq Kind.system Kind.system h = refl
same_kind-eq Kind.output Kind.error h = cc
same_kind-eq Kind.output Kind.system h = cc
same_kind-eq Kind.error Kind.output h = cc
same_kind-eq Kind.error Kind.system h = cc
same_kind-eq Kind.system Kind.output h = cc
same_kind-eq Kind.system Kind.error h = cc

abbrev pub joined : List PendingTerminalOutput × Batch → List (Kind × ℕ)
joined (ready, next) = stream ready ++ stream (flushed next)

-- The pending frame takes data of this kind.
abbrev pub Takes : Kind → Batch → Type 0
Takes kind none = Unit
Takes kind (some p) = kind_of p ≡ kind

settle-joined : (p : PendingTerminalOutput) → joined (settle p) ≡ stream (p ∷ [])
settle-joined p =
    if_cases (λ (o : List PendingTerminalOutput × Batch). joined o ≡ stream (p ∷ []))
      (leb terminal_batch_bytes (length p.payload)) _ _ (λ _. append-nil (stream (p ∷ [])))
      (λ _. refl)

settle-Takes :
    (kind : Kind) (p : PendingTerminalOutput) → kind_of p ≡ kind → Takes kind (settle p).1
settle-Takes kind p h =
    if_cases (λ (o : List PendingTerminalOutput × Batch). Takes kind o.1)
      (leb terminal_batch_bytes (length p.payload)) _ _ (λ _. tt) (λ _. h)

extended-kind :
    (kind : Kind) (batch : Batch) (chunk : Bytes)
    → Takes kind batch
    → kind_of (extended kind batch chunk) ≡ kind
unfolding kind_of
extended-kind kind none chunk h = unfold kind_of in kind_of-new kind chunk
extended-kind kind (some p) chunk h = h

extended-stream :
    (kind : Kind) (batch : Batch) (chunk : Bytes)
    → Takes kind batch
    → stream (extended kind batch chunk ∷ []) ≡ stream (flushed batch) ++ tagged kind chunk
extended-stream kind none chunk h =
    append-nil (tagged (kind_of (new kind chunk)) chunk)
    ∙ ap (λ k. tagged k chunk) (kind_of-new kind chunk)
extended-stream kind (some p) chunk h =
    append-nil (tagged (kind_of (extended kind (some p) chunk)) (p.payload ++ chunk))
    ∙ ap (λ k. tagged k (p.payload ++ chunk)) (extended-kind kind (some p) chunk h)
    ∙ tagged-append kind p.payload chunk
    ∙ ap (λ k. tagged k p.payload ++ tagged kind chunk) (sym h)
    ∙ ap (λ l. l ++ tagged kind chunk) (sym (append-nil (tagged (kind_of p) p.payload)))

abbrev pub concat : List Bytes → Bytes
concat [] = []
concat (c ∷ cs) = c ++ concat cs

-- Adding chunks loses nothing and keeps the order.
add_chunks-joined :
    (kind : Kind) (cs : List Bytes) (batch : Batch)
    → Takes kind batch
    → joined (add_chunks kind cs batch) ≡ stream (flushed batch) ++ tagged kind (concat cs)
unfolding add_chunks
add_chunks-joined kind [] batch h = sym (append-nil (stream (flushed batch)))
add_chunks-joined kind (c ∷ cs) batch h =
    let p = extended kind batch c in
    let (ready, next) = settle p in
    let (more, last) = add_chunks kind cs next in
    let rest =
      add_chunks-joined kind cs next (settle-Takes kind p (extended-kind kind batch c h)) in
    ap (λ l. l ++ stream (flushed last)) (stream-append ready more)
    ∙ append_assoc (stream ready) (stream more) (stream (flushed last))
    ∙ ap (λ l. stream ready ++ l) rest
    ∙ sym (append_assoc (stream ready) (stream (flushed next)) (tagged kind (concat cs)))
    ∙ ap (λ l. l ++ tagged kind (concat cs)) (settle-joined p ∙ extended-stream kind batch c h)
    ∙ append_assoc (stream (flushed batch)) (tagged kind c) (tagged kind (concat cs))
    ∙ ap (λ l. stream (flushed batch) ++ l) (sym (tagged-append kind c (concat cs)))

chunks-concat :
    (fuel n : ℕ) (bytes : Bytes)
    → 0 < n
    → length bytes ≤ fuel
    → concat (chunks fuel n bytes) ≡ bytes
unfolding chunks
chunks-concat zero n [] pos enough = refl
chunks-concat zero n (b ∷ bytes) pos enough = absurd (omega arith)
chunks-concat (suc fuel) n [] pos enough = refl
chunks-concat (suc fuel) n (b ∷ bytes) pos enough =
    ap (λ l. take n (b ∷ bytes) ++ l)
      (chunks-concat fuel n (drop n (b ∷ bytes)) pos (omega (arith, length-drop n (b ∷ bytes))))
    ∙ take-append-drop n (b ∷ bytes)

must_go-Takes :
    (kind : Kind) (size : ℕ) (batch : Batch) → must_go kind size batch ≡ false → Takes kind batch
must_go-Takes kind size none h = tt
must_go-Takes kind size (some p) h = same_kind-eq (kind_of p) kind (ground arith)

all_chunks : (bytes : Bytes) → concat (chunks (length bytes) terminal_batch_bytes bytes) ≡ bytes
all_chunks bytes =
    chunks-concat (length bytes) terminal_batch_bytes bytes (omega arith) (omega arith)

-- A push loses nothing and keeps the order.
pub push-joined :
    (kind : Kind) (bytes : Bytes) (batch : Batch)
    → joined (push kind bytes batch) ≡ stream (flushed batch) ++ tagged kind bytes
unfolding push
push-joined kind bytes batch = elim (Bool-cases (must_go kind (length bytes) batch)) [
  | inl e ↦
      let (more, last) = add_chunks kind (chunks (length bytes) terminal_batch_bytes bytes) none in
      rw e (
        ap (λ l. l ++ stream (flushed last)) (stream-append (flushed batch) more)
        ∙ append_assoc (stream (flushed batch)) (stream more) (stream (flushed last))
        ∙ ap (λ l. stream (flushed batch) ++ l)
            (add_chunks-joined kind (chunks (length bytes) terminal_batch_bytes bytes) none tt
              ∙ ap (tagged kind) (all_chunks bytes)))
  | inr e ↦ rw e (
      add_chunks-joined kind (chunks (length bytes) terminal_batch_bytes bytes) batch
        (must_go-Takes kind (length bytes) batch e)
      ∙ ap (λ l. stream (flushed batch) ++ tagged kind l) (all_chunks bytes))
]

pub said-cons : (m : Message) (ms : List Message) → said (m ∷ ms) ≡ said (m ∷ []) ++ said ms
said-cons (Message.data_ kind urgent bytes) ms =
    ap (λ l. l ++ said ms) (sym (append-nil (tagged kind bytes)))
said-cons Message.tick ms = refl
said-cons (Message.exit text) ms =
    ap (λ l. l ++ said ms) (sym (append-nil (tagged Kind.system text)))

urgent-joined :
    (urgent : Bool) (ready : List PendingTerminalOutput) (next : Batch)
    → joined (if urgent then (ready ++ flushed next, none) else (ready, next))
      ≡ joined (ready, next)
urgent-joined true ready next =
    append-nil (stream (ready ++ flushed next)) ∙ stream-append ready (flushed next)
urgent-joined false ready next = refl

pub receive-joined :
    (m : Message) (batch : Batch)
    → joined (receive m batch) ≡ stream (flushed batch) ++ said (m ∷ [])
unfolding receive
receive-joined (Message.data_ kind urgent bytes) batch =
    let (ready, next) = push kind bytes batch in
    urgent-joined urgent ready next
    ∙ push-joined kind bytes batch
    ∙ ap (λ l. stream (flushed batch) ++ l) (sym (append-nil (tagged kind bytes)))
receive-joined Message.tick batch = refl
receive-joined (Message.exit text) batch =
    append-nil (stream (flushed batch ++ new Kind.system text ∷ []))
    ∙ stream-append (flushed batch) (new Kind.system text ∷ [])
    ∙ ap (λ k. stream (flushed batch) ++ (tagged k text ++ [])) (kind_of-new Kind.system text)
