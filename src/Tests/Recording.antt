-- ===== src/Tests/Recording.antt =====
-- A voice message in a browser that knows one format.
use zapi_pwa.Base.{◌≡◌, refl, false, List, [], ◌∷◌, ◌++◌, text, text_eq, arith}
use zapi_pwa.Voice.{
  made, Browser, Event, press_start, press_stop, granted, stopped, data_available, sent, run,
  mounted,
}
use zapi_pwa.Voice.Closed.{IsTidy, run-IsTidy}
use zapi_pwa.Voice.Session.{
  Moment, piece, moment, pieces, session, button_of, kept_file, session_sends,
}

abbrev browser : Browser
unfolding text_eq
browser = record { is_supported = λ t. text_eq t (text "audio/webm"); digits = λ n. text "7" }

abbrev day_of_use : List Event
day_of_use =
    press_start ∷ granted 1 0 made ∷ data_available (1 ∷ []) ∷ press_stop ∷ stopped 900 ∷ sent ∷ []

run-IsTidy_example : IsTidy (run browser day_of_use mounted)
run-IsTidy_example =
    run-IsTidy browser day_of_use
      (refl, (omega arith, (tt, (refl, (omega arith, (omega arith, tt))))))
      (refl, (refl, (tt, (tt, (tt, (tt, tt))))))

abbrev pauses : List Moment
pauses = piece (1 ∷ 2 ∷ []) ∷ moment 500 ∷ piece [] ∷ []

session_sends_example :
    (run browser
      (session 1 0 pauses (button_of browser false) (piece (3 ∷ []) ∷ []) 1000)
      (run browser [] mounted)).files
    ≡ (run browser [] mounted).files
      ++ kept_file browser 1000 false (pieces pauses ++ pieces (piece (3 ∷ []) ∷ []))
session_sends_example =
    session_sends browser [] false 1 0 1000 pauses (piece (3 ∷ []) ∷ []) tt refl refl

-- Where the button is pressed again while the browser asks, one microphone stays open.
asked_twice :
    (run browser
      (press_start
        ∷ press_start
        ∷ granted 1 0 made
        ∷ granted 2 0 made
        ∷ press_stop
        ∷ stopped 900
        ∷ [])
      mounted).microphones
    ≡ 1 ∷ []
asked_twice = refl
