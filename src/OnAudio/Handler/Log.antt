-- ===== src/OnAudio/Handler/Log.antt =====
-- What a part of a run of `POST` inserts, read off its log.
use zapi_pwa.Base.{◌≡◌, refl, sym, ap, ◌∙◌, List, [], ◌∷◌, ◌++◌, append-nil, append_assoc}
use zapi_pwa.OnAudio.{
  MessageRow, TranscriptionRow, Call, downloaded, transcribed, summarized, inserted,
  inserted_transcription,
}

-- The inserts of a log.
abbrev pub messages_of : List Call → List MessageRow
messages_of [] = []
messages_of (inserted row ∷ log) = row ∷ messages_of log
messages_of (inserted_transcription row ∷ log) = messages_of log
messages_of (downloaded url key ∷ log) = messages_of log
messages_of (transcribed audio ∷ log) = messages_of log
messages_of (summarized full ∷ log) = messages_of log

abbrev pub transcriptions_of : List Call → List TranscriptionRow
transcriptions_of [] = []
transcriptions_of (inserted row ∷ log) = transcriptions_of log
transcriptions_of (inserted_transcription row ∷ log) = row ∷ transcriptions_of log
transcriptions_of (downloaded url key ∷ log) = transcriptions_of log
transcriptions_of (transcribed audio ∷ log) = transcriptions_of log
transcriptions_of (summarized full ∷ log) = transcriptions_of log

messages_of-append : (l m : List Call) → messages_of (l ++ m) ≡ messages_of l ++ messages_of m
messages_of-append [] m = refl
messages_of-append (inserted row ∷ l) m = ap (◌∷◌ row) (messages_of-append l m)
messages_of-append (inserted_transcription row ∷ l) m = messages_of-append l m
messages_of-append (downloaded url key ∷ l) m = messages_of-append l m
messages_of-append (transcribed audio ∷ l) m = messages_of-append l m
messages_of-append (summarized full ∷ l) m = messages_of-append l m

transcriptions_of-append :
    (l m : List Call) → transcriptions_of (l ++ m) ≡ transcriptions_of l ++ transcriptions_of m
transcriptions_of-append [] m = refl
transcriptions_of-append (inserted row ∷ l) m = transcriptions_of-append l m
transcriptions_of-append (inserted_transcription row ∷ l) m =
    ap (◌∷◌ row) (transcriptions_of-append l m)
transcriptions_of-append (downloaded url key ∷ l) m = transcriptions_of-append l m
transcriptions_of-append (transcribed audio ∷ l) m = transcriptions_of-append l m
transcriptions_of-append (summarized full ∷ l) m = transcriptions_of-append l m

-- What a part of a run added to the two tables.
pub record Wrote (log log' : List Call) (ms : List MessageRow) (ts : List TranscriptionRow)
    : Type 0 where
  pub messages : messages_of log' ≡ messages_of log ++ ms
  pub transcriptions : transcriptions_of log' ≡ transcriptions_of log ++ ts

pub nothing-Wrote : (log : List Call) → Wrote log log [] []
nothing-Wrote log = record {
  messages = sym (append-nil (messages_of log));
  transcriptions = sym (append-nil (transcriptions_of log));
}

pub call-Wrote :
    (log : List Call) (c : Call)
    → Wrote log (log ++ c ∷ []) (messages_of (c ∷ [])) (transcriptions_of (c ∷ []))
call-Wrote log c = record {
  messages = messages_of-append log (c ∷ []);
  transcriptions = transcriptions_of-append log (c ∷ []);
}

pub then-Wrote :
    (log log' log'' : List Call) (ms ms' : List MessageRow) (ts ts' : List TranscriptionRow)
    → Wrote log log' ms ts
    → Wrote log' log'' ms' ts'
    → Wrote log log'' (ms ++ ms') (ts ++ ts')
then-Wrote log log' log'' ms ms' ts ts' p q = record {
  messages = q.messages ∙ ap (λ l. l ++ ms') p.messages ∙ append_assoc (messages_of log) ms ms';
  transcriptions =
      q.transcriptions
      ∙ ap (λ l. l ++ ts') p.transcriptions
      ∙ append_assoc (transcriptions_of log) ts ts';
}
