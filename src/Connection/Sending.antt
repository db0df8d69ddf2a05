-- ===== src/Connection/Sending.antt =====
-- sendInLoop: no byte of the message is lost or reordered.
use chaonet.Common.{
  ℕ, zero, suc, ◌+◌, ◌≤◌, ◌<◌, ◌≡◌, refl, sym, ap, ◌∙◌, ◌⊎◌, inl, inr, Bool, true, false, not, List,
  [], ◌∷◌, ◌++◌, append_assoc, append-nil, ok, Bool-cases, arith, length, take, drop, ltb, ltb→lt,
  ltb-eq-false, if◌then◌else◌, take-append-drop, take-all, and_right, length-drop, add_size,
  sub_size, ==_iff,
}
use chaonet.Buffer.{readable_bytes, contents, max_size}
use chaonet.Buffer.Append.{append_lem}
use chaonet.Channel.{Channel, is_writing, enable_writing}
use chaonet.Channel.Events.{Watches, is_writing-Watches, enable_writing-Watches}
use chaonet.Connection.{
  Connection, Action, interest, queue, Write, would_block, write_error, accepted, write_complete,
  high_water, high_water_call, watch_writing, direct_write, keep_rest, send_in_loop,
  can_write_directly, when, also,
}
use chaonet.Connection.Inv.{
  has_output, tells_complete, Ready, wired, wired-append, empty_output, some_output,
}

-- write(2) accepts at most what it is given.
abbrev pub Accepts : Write → ℕ → Type 0
Accepts (accepted n) len = n ≤ len
Accepts would_block len = Unit {0}
Accepts write_error len = Unit {0}

-- The connection after a handler that sends `message`: what the socket accepted, followed by what is
-- still to be sent, is what was to be sent before, followed by the message. If there was something to
-- be sent and a write-complete callback, there still is, or the callback was queued.
pub record Sent (c : Connection) (message : List ℕ) (c' : Connection) (actions : List Action)
    : Type 0 where
  pub ready : Ready c'
  pub stream : wired actions ++ contents c'.output ≡ contents c.output ++ message
  pub state : c'.state ≡ c.state
  pub input : c'.input ≡ c.input
  pub end : c'.output.writer_index ≤ c.output.writer_index + length message
  pub reading : c'.reading ≡ c.reading
  pub completes : c'.has_write_complete ≡ c.has_write_complete
  pub wakes :
      has_output c ≡ true
      → c.has_write_complete ≡ true
      → (has_output c' ≡ true) ⊎ (tells_complete actions ≡ true)

pub wired-when : (b : Bool) (a : Action) → wired (a ∷ []) ≡ [] → wired (when b a) ≡ []
unfolding when
wired-when true a silent = silent
wired-when false a silent = refl

wired-high_water_call : (c : Connection) (old total : ℕ) → wired (high_water_call c old total) ≡ []
unfolding high_water_call
wired-high_water_call c old total = wired-when _ (queue (high_water total)) refl

-- The channel is writing afterwards, and nothing else changed.
watch_writing-Watches :
    (c : Connection) (r w : Bool)
    → Watches c.channel r w
    → (k : Channel) × (actions : List Action) × (watch_writing c
        ≡ (record c { channel = k }, actions))
      × Watches k r true
      × (wired actions ≡ [])
unfolding watch_writing
watch_writing-Watches c r true e =
    (c.channel, [], rw (is_writing-Watches c.channel r true e), e, refl)
watch_writing-Watches c r false e = (
  enable_writing c.channel,
  interest (enable_writing c.channel).events ∷ [],
  rw (is_writing-Watches c.channel r false e),
  enable_writing-Watches c.channel r false e,
  refl,
)

nonempty : (xs : List ℕ) (n : ℕ) → n < length xs → (y : ℕ) × (ys : List ℕ) × (drop n xs ≡ y ∷ ys)
nonempty [] n h = elim h [ ]
nonempty (x ∷ xs) zero h = (x, xs, refl)
nonempty (x ∷ xs) (suc n) h = nonempty xs n (omega arith)

module _ (c : Connection) (message : List ℕ) (n : ℕ) (r : Ready c) where
  pub keep_rest-Sent :
      n < length message
      → c.output.writer_index + length message ≤ max_size
      → (c' : Connection) × (actions : List Action) × (keep_rest c message n ≡ ok (c', actions))
        × Sent c (drop n message) c' actions
        × (wired actions ≡ [])
        × (has_output c' ≡ true)
        × Watches c'.channel r.reads true
  unfolding keep_rest
  keep_rest-Sent more fits =
      let rest = drop n message in
      let (out, run, g) =
        append_lem c.output rest r.output_valid (omega (arith, fits, length-drop n message)) in
      let (k, actions, watched, w, silent) =
        watch_writing-Watches (record c { output = out }) r.reads r.writes r.watches in
      let (y, ys, e) = nonempty message n more in
      let full =
        some_output out y (contents c.output) ys g.valid
          (g.appended ∙ ap (◌++◌ (contents c.output)) e) in
      let high =
        high_water_call c (readable_bytes c.output)
          (add_size (readable_bytes c.output) (sub_size (length message) n)) in
      let quiet : wired (high ++ actions) ≡ [] =
        wired-append high actions
        ∙ ap (λ m. m ++ wired actions) (wired-high_water_call c _ _)
        ∙ silent in
      (
        record c { output = out; channel = k },
        high ++ actions,
        rw run (rw watched),
        record {
          ready = record {
            input_valid = r.input_valid;
            output_valid = g.valid;
            reads = r.reads;
            writes = true;
            watches = w;
            pending = inr (ap not (sym full));
          };
          stream = rw quiet g.appended;
          state = refl;
          input = refl;
          end = g.end;
          reading = refl;
          completes = refl;
          wakes = λ _ _. inl (ap not full);
        },
        quiet,
        ap not full,
        w,
      )

  -- Once `n` bytes went out, the rest is kept.
  kept :
      (actions : List Action)
      → (wired actions ++ contents c.output ≡ contents c.output ++ take n message)
      → n < length message
      → c.output.writer_index + length message ≤ max_size
      → (c' : Connection) × (all : List Action) × (also actions (keep_rest c message n)
          ≡ ok (c', all))
        × Sent c message c' all
  kept actions before more fits =
      let (c', rest, run, s, quiet, more_left, _) = keep_rest-Sent more fits in
      let grown : contents c'.output ≡ contents c.output ++ drop n message =
        ap (λ m. m ++ contents c'.output) (sym quiet) ∙ s.stream in
      let out : wired (actions ++ rest) ≡ wired actions =
        wired-append actions rest ∙ ap (◌++◌ (wired actions)) quiet ∙ append-nil (wired actions) in
      (
        c',
        actions ++ rest,
        rw run,
        record {
          ready = s.ready;
          stream =
              ap (λ m. m ++ contents c'.output) out
              ∙ ap (◌++◌ (wired actions)) grown
              ∙ sym (append_assoc (wired actions) (contents c.output) (drop n message))
              ∙ ap (λ m. m ++ drop n message) before
              ∙ append_assoc (contents c.output) (take n message) (drop n message)
              ∙ ap (◌++◌ (contents c.output)) (take-append-drop n message);
          state = s.state;
          input = s.input;
          end = omega (arith, s.end, length-drop n message);
          reading = s.reading;
          completes = s.completes;
          wakes = λ _ _. inl more_left;
        },
      )

  -- Or all of it went out.
  finished :
      (actions : List Action)
      → (wired actions ++ contents c.output ≡ contents c.output ++ take n message)
      → length message ≤ n
      → Sent c message c actions
  finished actions before all = record {
    ready = r;
    stream = before ∙ ap (◌++◌ (contents c.output)) (take-all n message all);
    state = refl;
    input = refl;
    end = omega arith;
    reading = refl;
    completes = refl;
    wakes = λ left _. inl left;
  }

  -- Both, by the test that the code makes.
  rest_of :
      (actions : List Action)
      → (wired actions ++ contents c.output ≡ contents c.output ++ take n message)
      → c.output.writer_index + length message ≤ max_size
      → (c' : Connection) × (all : List Action) × ((if ltb n (length message)
            then also actions (keep_rest c message n)
            else ok (c, actions))
          ≡ ok (c', all))
        × Sent c message c' all
  rest_of actions before fits = elim (Bool-cases (ltb n (length message))) [
    | inl more ↦
        let (c', all, run, s) = kept actions before (ltb→lt _ _ more) fits in
        (c', all, rw more run, s)
    | inr done ↦ (c, actions, rw done, finished actions before (ltb-eq-false _ _ done))
  ]

direct_write-wired :
    (c : Connection) (message : List ℕ) (w : Write)
    → wired (direct_write c message w).1 ≡ take (direct_write c message w).0 message
unfolding direct_write
direct_write-wired c message would_block = refl
direct_write-wired c message write_error = refl
direct_write-wired c message (accepted n) =
    ap (◌++◌ (take n message)) (silent (ltb n (length message)) c.has_write_complete)
    ∙ append-nil (take n message)
  where
    silent : (a b : Bool) → wired (if a then [] else when b (queue write_complete)) ≡ []
    silent true b = refl
    silent false b = wired-when b (queue write_complete) refl

-- sendInLoop returns, fails no assertion and keeps the connection ready, if the message fits below
-- max_size() behind the output. What the socket accepted, followed by the output buffer, is the old
-- output followed by the message: no byte is lost, repeated or reordered, whatever write(2) returns.
pub send_in_loop-Sent :
    (c : Connection) (message : List ℕ) (w : Write)
    → Ready c
    → c.output.writer_index + length message ≤ max_size
    → (c' : Connection) × (actions : List Action) × (send_in_loop c message w ≡ ok (c', actions))
      × Sent c message c' actions
unfolding send_in_loop
send_in_loop-Sent c message w r fits = elim (Bool-cases (can_write_directly c)) [
  | inl direct ↦
      let (n, actions) = direct_write c message w in
      let none_left : contents c.output ≡ [] =
        empty_output c r ((==_iff _ _).0 (and_right (not (is_writing c.channel)) _ direct)) in
      let ready_to_go : wired actions ++ contents c.output ≡ contents c.output ++ take n message =
        ap (λ m. m ++ contents c.output) (direct_write-wired c message w)
        ∙ ap (◌++◌ (take n message)) none_left
        ∙ append-nil (take n message)
        ∙ ap (λ m. m ++ take n message) (sym none_left) in
      let (c', all, run, s) = rest_of c message n r actions ready_to_go fits in
      (c', all, rw direct run, s)
  | inr indirect ↦
      let (c', all, run, s) =
        rest_of c message 0 r [] (sym (append-nil (contents c.output))) fits in
      (c', all, rw indirect run, s)
]
