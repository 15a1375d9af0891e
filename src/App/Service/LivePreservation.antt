-- ===== src/App/Service/LivePreservation.antt =====
-- internal/app/live_view_service.go: the methods on live views keep the invariants of the store.
use browser_automation_byte.Prelude.{String, Option}
use browser_automation_byte.Core.Reply.{Reply, ok, fail, fail_with}
use browser_automation_byte.Core.Times.{duration}
use browser_automation_byte.Core.Ports.{Store, Environment}
use browser_automation_byte.App.Service.World.{World, resume, return}
use browser_automation_byte.App.Service.Frame.{resume-keeps, check-keeps}
use browser_automation_byte.App.Service.Invariants.{IsInvariant}
use browser_automation_byte.App.Service.Preservation.{get_browser_session-keeps}
use browser_automation_byte.App.Service.Lifetime.{get_browser_session}
use browser_automation_byte.App.Service.LiveView.{
  LiveView, Codec, LiveRuntime, Provider, blank_error, negative_error, chosen, sign_live_view,
  LiveViewRequest, verify_live_view, expired_error, running_error, support_error,
  authorize_browser_live_view, create_browser_live_view,
}

module _ {S E B : Type 0} {store : Store S} {P : S → Type 0} (invariant : IsInvariant store P)
    (environment : Environment E) (codec : Codec B) (live : Option LiveRuntime)
    (default_provider : Option Provider) where
  signed-keeps :
      (signed : Reply String) (made : String → LiveView) (w : World S E)
      → P w.stored
      → P (resume (signed, w) (λ token. return (made token))).1.stored
  signed-keeps (ok token) made w h = h
  signed-keeps (fail err) made w h = h
  signed-keeps (fail_with token err) made w h = h

  pub authorize_browser_live_view-keeps :
      (token : String) (w : World S E)
      → P w.stored
      → P
          (authorize_browser_live_view store environment codec live default_provider token
            w).1.stored
  unfolding authorize_browser_live_view
  authorize_browser_live_view-keeps token w h =
      resume-keeps P (verify_live_view codec token, w) _ h
        (λ view w1 _ h1.
          check-keeps P (expired_error store environment codec live default_provider _ view, _) _ h1
            (λ w2 _ h2.
              resume-keeps P (get_browser_session store environment view.session_id w2) _
                (get_browser_session-keeps invariant environment view.session_id w2 h2)
                (λ session w3 _ h3.
                  check-keeps P
                    (running_error store environment codec live default_provider session, w3) _ h3
                    (λ w4 _ h4.
                      check-keeps P
                        (
                          support_error store environment codec live default_provider view.provider,
                          w4,
                        )
                        _ h4 (λ w5 _ h5. h5)))))

  pub create_browser_live_view-keeps :
      (request : LiveViewRequest) (w : World S E)
      → P w.stored
      → P
          (create_browser_live_view store environment codec live default_provider request
            w).1.stored
  unfolding create_browser_live_view
  create_browser_live_view-keeps request w h =
      let provider = chosen store environment codec live default_provider request.provider in
      let blank = blank_error store environment codec live default_provider request.session_id in
      check-keeps P {B = LiveView} (blank, w) _ h
        (λ w1 _ h1.
          resume-keeps P {B = LiveView}
            (get_browser_session store environment request.session_id w1) _
            (get_browser_session-keeps invariant environment request.session_id w1 h1)
            (λ session w2 _ h2.
              let stopped = running_error store environment codec live default_provider session in
              check-keeps P {B = LiveView} (stopped, w2) _ h2
                (λ w3 _ h3.
                  let unsupported =
                    support_error store environment codec live default_provider provider in
                  check-keeps P {B = LiveView} (unsupported, w3) _ h3
                    (λ w4 _ h4.
                      let negative =
                        negative_error store environment codec live default_provider
                          (duration request.ttl) in
                      check-keeps P {B = LiveView} (negative, w4) _ h4
                        (λ w5 _ h5. signed-keeps (sign_live_view codec _) _ _ h5)))))
