-- ===== src/Tests/Coding.antt =====
-- A coding of jobs as text that meets the assumptions on `JSON.stringify` and `JSON.parse`.
use zapi_pwa.Base.{
  zero, ◌≡◌, refl, Option, none, some, [], ◌∷◌, ◌++◌, Text, length, take, drop, take-append,
  drop-append,
}
use zapi_pwa.Queue.{TranscriptionJob, Codec}

abbrev put : Text → Text → Text
put t rest = length t ∷ (t ++ rest)

abbrev head_of : Text → Text
head_of [] = []
head_of (n ∷ s) = take n s

abbrev tail_of : Text → Text
tail_of [] = []
tail_of (n ∷ s) = drop n s

abbrev pub stringify : TranscriptionJob → Text
stringify j =
    0
    ∷ put j.id
        (put j.instance_id (put j.message_id (put j.audio_url (j.attempts ∷ j.created_at ∷ []))))

abbrev job_of : Text → Text → Text → Text → Text → Option TranscriptionJob
job_of a b c d (m ∷ n ∷ []) = some (record {
  id = a;
  instance_id = b;
  message_id = c;
  audio_url = d;
  attempts = m;
  created_at = n;
})
job_of a b c d _ = none

abbrev pub parse : Text → Option TranscriptionJob
parse (zero ∷ s) =
    let s1 = tail_of s in
    let s2 = tail_of s1 in
    let s3 = tail_of s2 in job_of (head_of s) (head_of s1) (head_of s2) (head_of s3) (tail_of s3)
parse _ = none

put_head : (t rest : Text) → head_of (put t rest) ≡ t
put_head t rest = take-append t rest

put_tail : (t rest : Text) → tail_of (put t rest) ≡ rest
put_tail t rest = drop-append t rest

pub parse-stringify : (j : TranscriptionJob) → parse (stringify j) ≡ some j
parse-stringify j =
    let e4 = j.attempts ∷ j.created_at ∷ [] in
    let e3 = put j.audio_url e4 in
    let e2 = put j.message_id e3 in
    let e1 = put j.instance_id e2 in
    rw
      (
        put_tail j.id e1,
        put_head j.id e1,
        put_tail j.instance_id e2,
        put_head j.instance_id e2,
        put_tail j.message_id e3,
        put_head j.message_id e3,
        put_tail j.audio_url e4,
        put_head j.audio_url e4,
      )
      refl

abbrev pub coding : Codec
coding = record {
  stringify = stringify;
  parse = parse;
  parse-stringify = parse-stringify;
  parse_object = refl;
}
