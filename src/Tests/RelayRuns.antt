-- ===== src/Tests/RelayRuns.antt =====
-- cmd/hdk2udp/main.go and proxy.go at concrete inputs, with an encoding of its parameters.
use hadock.Common.{
  ℕ, zero, suc, ◌+◌, ◌≡◌, refl, ap, true, false, Bool, Option, none, some, List, [], ◌∷◌, ◌++◌,
  append_assoc, map, Bytes, length, take, drop, take-append, drop-append, All, ◌==◌, ltb, ◌%◌, ◌<◌,
  if◌then◌else◌, arith,
}
use hadock.Common.Endian.{be}
use hadock.Common.Texts.{codes}
use hadock.Hdk2udp.Parameters.{
  EngValue, string_value, uint32_value, sint32_value, sint64_value, boolean_value, ParameterValue,
  ParameterData,
}
use hadock.Hdk2udp.Relay.{
  Attempt, Channel, goes_out, fails, breaks, Turn, new_sender, queued, send_to,
}
use hadock.Hdk2udp.Relay.Losses.{arrivals_from, failures_from, send_to-arrivals_from}
use hadock.Hdk2udp.Relay.Delivery.{
  IsCarried, IsCodec, notified, accepted, prepared, numbered, read_arrived, send_to-notified,
}
use hadock.Notifier.{Message, Options, Source, encode_message, write_string}
use hadock.Notifier.Codec.{IsWritable}
use hadock.Storage.Paths.{Calendar}
use hadock.TcpProxy.{plain, Level, Event, dial_proxy, write, run}
use hadock.TcpProxy.Plain.{as_written, run-reconnected}

unfoldable put_text : Bytes → Bytes
put_text bs = length bs ∷ bs

unfoldable get_text : Bytes → Bytes × Bytes
get_text [] = ([], [])
get_text (n ∷ r) = (take n r, drop n r)

abbrev get_number : Bytes → ℕ × Bytes
get_number [] = (0, [])
get_number (n ∷ r) = (n, r)

unfoldable put_value : EngValue → Bytes
put_value (string_value v) = 0 ∷ put_text v
put_value (uint32_value v) = 1 ∷ v ∷ []
put_value (sint32_value v) = 2 ∷ v ∷ []
put_value (sint64_value v) = 3 ∷ v ∷ []
put_value (boolean_value false) = 4 ∷ []
put_value (boolean_value true) = 5 ∷ []

abbrev value_of_tag : ℕ → Bytes → EngValue × Bytes
value_of_tag tag r =
    if tag == 0
    then (string_value (get_text r).0, (get_text r).1)
    else if tag == 1
    then (uint32_value (get_number r).0, (get_number r).1)
    else if tag == 2
    then (sint32_value (get_number r).0, (get_number r).1)
    else if tag == 3
    then (sint64_value (get_number r).0, (get_number r).1)
    else (boolean_value (tag == 5), r)

unfoldable get_value : Bytes → EngValue × Bytes
get_value r = let n = get_number r in value_of_tag n.0 n.1

get_text-put_text : (bs r : Bytes) → get_text (put_text bs ++ r) ≡ (bs, r)
unfolding get_text put_text
get_text-put_text bs r = rw (take-append bs r, drop-append bs r)

get_value-put_value : (v : EngValue) (r : Bytes) → get_value (put_value v ++ r) ≡ (v, r)
unfolding get_value put_value
get_value-put_value (string_value v) r = rw (get_text-put_text v r)
get_value-put_value (uint32_value v) r = refl
get_value-put_value (sint32_value v) r = refl
get_value-put_value (sint64_value v) r = refl
get_value-put_value (boolean_value false) r = refl
get_value-put_value (boolean_value true) r = refl

unfoldable put_parameter : ParameterValue → Bytes
put_parameter p =
    put_text p.id
    ++ (put_text p.namespace
        ++ (put_value p.eng_value ++ (p.generation_time ∷ p.acquisition_time ∷ [])))

unfoldable get_parameter : Bytes → ParameterValue × Bytes
get_parameter r =
    let i = get_text r in
    let n = get_text i.1 in
    let v = get_value n.1 in
    let g = get_number v.1 in
    let a = get_number g.1 in
    (
      record {
        id = i.0;
        namespace = n.0;
        eng_value = v.0;
        generation_time = g.0;
        acquisition_time = a.0;
      },
      a.1,
    )

get_parameter-put_parameter :
    (p : ParameterValue) (r : Bytes) → get_parameter (put_parameter p ++ r) ≡ (p, r)
unfolding get_parameter put_parameter
get_parameter-put_parameter p r = simp (append_assoc, get_text-put_text, get_value-put_value)

abbrev put_parameters : List ParameterValue → Bytes
put_parameters [] = []
put_parameters (p ∷ ps) = put_parameter p ++ put_parameters ps

abbrev get_parameters : ℕ → Bytes → List ParameterValue
get_parameters zero r = []
get_parameters (suc n) r = let p = get_parameter r in p.0 ∷ get_parameters n p.1

get_parameters-put_parameters :
    (ps : List ParameterValue) → get_parameters (length ps) (put_parameters ps) ≡ ps
get_parameters-put_parameters [] = refl
get_parameters-put_parameters (p ∷ ps) =
    rw (get_parameter-put_parameter p (put_parameters ps), get_parameters-put_parameters ps)

unfoldable put_data : ParameterData → Bytes
put_data d =
    put_text d.group
    ++ (d.generation_time ∷ d.seq_num ∷ length d.parameters ∷ put_parameters d.parameters)

abbrev get_data_behind : Bytes × Bytes → Option ParameterData
get_data_behind (n, g ∷ i ∷ k ∷ r) =
    some (record { group = n; generation_time = g; seq_num = i; parameters = get_parameters k r })
get_data_behind (n, _) = none

abbrev get_data : Bytes → Option ParameterData
get_data bs = get_data_behind (get_text bs)

abbrev encode : ParameterData → Option Bytes
encode d = some (put_data d)

get_data-put_data : (d : ParameterData) → get_data (put_data d) ≡ some d
unfolding put_data
get_data-put_data d = rw (get_text-put_text d.group _, get_parameters-put_parameters d.parameters)

encode-IsCodec : IsCodec encode get_data
encode-IsCodec = record { bytes_of = put_data; encodes = λ d. refl; parses = get_data-put_data }

-- An int8 in 32 bits.
abbrev int32_of : ℕ → ℕ
int32_of c = if ltb c 128 then c else c + 4294967040

abbrev int8_of : ℕ → ℕ
int8_of d = d % 256

int8_of-int32_of : (c : ℕ) → c < 256 → int8_of (int32_of c) ≡ c
int8_of-int32_of c h = ground arith

abbrev pub a_message : Message
a_message = record {
  origin = codes "51";
  sequence = 12;
  instance_id = 255;
  channel = 2;
  realtime = true;
  count = 3;
  elapsed = 5000;
  generated = 1000;
  acquired = 2000;
  reference = codes "a.dat";
  upi = codes "SCIENCE";
}

abbrev pub of_mode : Bool → Message
of_mode b = record a_message { realtime = b }

of_mode-IsWritable : (b : Bool) → IsWritable (of_mode b)
of_mode-IsWritable b = record {
  origin_fits = omega arith;
  sequence_fits = omega arith;
  instance_fits = omega arith;
  channel_fits = omega arith;
  count_fits = omega arith;
  elapsed_fits = omega arith;
  generated_fits = omega arith;
  acquired_fits = omega arith;
  reference_fits = omega arith;
  upi_fits = omega arith;
}

pub of_mode-IsCarried : (b : Bool) → IsCarried (of_mode b)
unfolding encode_message write_string be
of_mode-IsCarried b = (of_mode-IsWritable b, omega arith)

abbrev joined : Bytes → Bytes → Bytes
joined a b = a ++ (47 ∷ b)

abbrev a_day : Calendar
a_day = record { year_of = λ t. 2017; year_day_of = λ t. 5; hour_of = λ t. 6; minute_of = λ t. 7 }

abbrev same : ℕ → ℕ
same t = t

abbrev a_channel : Channel
a_channel = record {
  name = codes "/MMA/";
  prefix = codes "/data";
  time = [];
  interval = 0;
  levels = [];
}

abbrev pub realtime_only : Option Options
realtime_only = some (record { source = Source.realtime; instance_id = 255; channels = [] })

abbrev turned : List Message → List Turn
turned [] = []
turned (m ∷ ms) = record { message = m; now = 5; attempt = goes_out } ∷ turned ms

message-turned : (ms : List Message) → map (λ t. t.message) (turned ms) ≡ ms
message-turned [] = refl
message-turned (m ∷ ms) = ap (λ ms. m ∷ ms) (message-turned ms)

turned-goes_out : (ms : List Message) → All (λ t. t.attempt ≡ goes_out) (turned ms)
turned-goes_out [] = tt
turned-goes_out (m ∷ ms) = (refl, turned-goes_out ms)

abbrev pub messages : List Message
messages = of_mode true ∷ of_mode false ∷ of_mode true ∷ []

abbrev queue : List Message
queue = queued joined a_day same a_channel (notified realtime_only messages)

send_to-notified_example :
    map
      (read_arrived get_data int8_of)
      (send_to int32_of same same encode a_channel.name (turned queue) new_sender).arrived
    ≡ numbered 1 (map (prepared joined a_day same a_channel) (accepted realtime_only messages))
send_to-notified_example =
    send_to-notified joined a_day int32_of int8_of same same encode get_data a_channel realtime_only
      messages (turned queue) encode-IsCodec int8_of-int32_of
      (of_mode-IsCarried true, (of_mode-IsCarried false, (of_mode-IsCarried true, tt)))
      (message-turned queue) (turned-goes_out queue)

abbrev broken : List Turn
broken =
    record { message = a_message; now = 5; attempt = fails }
    ∷ record { message = a_message; now = 6; attempt = breaks true }
    ∷ record { message = a_message; now = 7; attempt = goes_out }
    ∷ []

send_to-arrivals_from_example :
    let s = send_to int32_of same same encode a_channel.name broken new_sender in
    (s.arrived ≡ arrivals_from int32_of same same encode a_channel.name 1 0 broken)
    × (s.marshal_errors ≡ failures_from int32_of same same encode a_channel.name 1 broken)
    × (s.write_errors ≡ [])
send_to-arrivals_from_example =
    send_to-arrivals_from int32_of same same encode a_channel.name broken

broken_arrivals : map (λ x. x.0) (arrivals_from int32_of same same encode [] 1 0 broken) ≡ 1 ∷ []
broken_arrivals = refl

-- A writer that counts its writes, and sends one byte for each.
abbrev new_counter : Level → ℕ
new_counter l = 0

abbrev one_byte : ℕ → Bytes → ℕ × Bytes
one_byte g bs = (g + 1, g ∷ [])

abbrev of_attempt : Attempt → Event
of_attempt a = record { bytes = 1 ∷ 2 ∷ []; attempt = a; flushes = true; taken = 1 }

abbrev behind : List Event
behind =
    of_attempt goes_out ∷ of_attempt fails ∷ of_attempt (breaks true) ∷ of_attempt goes_out ∷ []

run-reconnected_example :
    let p = write new_counter one_byte (of_attempt (breaks true)) (
      run new_counter one_byte
        (dial_proxy new_counter one_byte (codes "best"))
        (of_attempt goes_out ∷ [])) in
    (p.writer ≡ plain p.conn)
    × ((run new_counter one_byte p behind).sent ≡ p.sent ++ as_written p.conn behind)
run-reconnected_example =
    run-reconnected new_counter one_byte (codes "best") (of_attempt goes_out ∷ []) behind
      (of_attempt (breaks true)) refl
