-- ===== src/Proxy/Attempt/Effects.antt =====
-- What the loops of src/proxy/router.rs do to the outside: requests sent and waits slept.
use mathlib.Core.List.{append-nil, append_assoc}
use lite_agentify.Prelude.{
  ℕ, ◌+◌, ◌≤◌, ◌≡◌, refl, sym, ap, ◌∙◌, List, [], ◌∷◌, ◌++◌, length, All, All-append, All-map,
  length-append, arith,
}
use lite_agentify.Proxy.Request.{UpstreamRequest}
use lite_agentify.Proxy.Record.{Crates, World, Outside}
use lite_agentify.Proxy.Attempt.{sending, sleeping}

module _ (x : Crates) where
  -- From one state to another at most `sends` requests went out, each of them good, and no wait
  -- was longer than `max_delay`.
  pub record Effects (IsGood : UpstreamRequest x.header → Type 0) (sends max_delay : ℕ)
      (w w' : World x) : Type 0 where
    pub requests : List (UpstreamRequest x.header)
    pub requests_sent : w'.sent ≡ w.sent ++ requests
    pub requests_bound : length requests ≤ sends
    pub requests_good : All IsGood requests
    pub waits : List ℕ
    pub waits_slept : w'.slept ≡ w.slept ++ waits
    pub waits_bound : All (λ ms. ms ≤ max_delay) waits

  module _ (IsGood : UpstreamRequest x.header → Type 0) (max_delay : ℕ) where
    -- Nothing was sent and nothing waited for, whatever was recorded.
    pub Effects-quiet :
        (w w' : World x) → w'.sent ≡ w.sent → w'.slept ≡ w.slept → Effects IsGood 0 max_delay w w'
    Effects-quiet w w' s t = record {
      requests = [];
      requests_sent = s ∙ sym (append-nil w.sent);
      requests_bound = omega arith;
      requests_good = tt;
      waits = [];
      waits_slept = t ∙ sym (append-nil w.slept);
      waits_bound = tt;
    }

    pub Effects-then :
        (m n : ℕ) (w w' w'' : World x)
        → Effects IsGood m max_delay w w'
        → Effects IsGood n max_delay w' w''
        → Effects IsGood (m + n) max_delay w w''
    Effects-then m n w w' w'' a b = record {
      requests = a.requests ++ b.requests;
      requests_sent =
          b.requests_sent
          ∙ ap (λ xs. xs ++ b.requests) a.requests_sent
          ∙ append_assoc w.sent a.requests b.requests;
      requests_bound =
          ground (arith, length-append a.requests b.requests, a.requests_bound, b.requests_bound);
      requests_good = All-append IsGood a.requests b.requests a.requests_good b.requests_good;
      waits = a.waits ++ b.waits;
      waits_slept =
          b.waits_slept
          ∙ ap (λ xs. xs ++ b.waits) a.waits_slept
          ∙ append_assoc w.slept a.waits b.waits;
      waits_bound = All-append (λ ms. ms ≤ max_delay) a.waits b.waits a.waits_bound b.waits_bound;
    }

    pub Effects-more :
        (m n : ℕ) (w w' : World x)
        → m ≤ n
        → Effects IsGood m max_delay w w'
        → Effects IsGood n max_delay w w'
    Effects-more m n w w' h a = record {
      requests = a.requests;
      requests_sent = a.requests_sent;
      requests_bound = ground (arith, a.requests_bound);
      requests_good = a.requests_good;
      waits = a.waits;
      waits_slept = a.waits_slept;
      waits_bound = a.waits_bound;
    }

    pub Effects-good :
        (IsFine : UpstreamRequest x.header → Type 0) (n : ℕ) (w w' : World x)
        → ((q : UpstreamRequest x.header) → IsGood q → IsFine q)
        → Effects IsGood n max_delay w w'
        → Effects IsFine n max_delay w w'
    Effects-good IsFine n w w' f a = record {
      requests = a.requests;
      requests_sent = a.requests_sent;
      requests_bound = a.requests_bound;
      requests_good = All-map IsGood IsFine a.requests f a.requests_good;
      waits = a.waits;
      waits_slept = a.waits_slept;
      waits_bound = a.waits_bound;
    }

    pub Effects-send :
        (o : Outside x) (request : UpstreamRequest x.header) (w : World x)
        → IsGood request
        → Effects IsGood 1 max_delay w (sending x o request w)
    Effects-send o request w good = record {
      requests = request ∷ [];
      requests_sent = refl;
      requests_bound = omega arith;
      requests_good = (good, tt);
      waits = [];
      waits_slept = sym (append-nil w.slept);
      waits_bound = tt;
    }

    pub Effects-sleep :
        (o : Outside x) (ms : ℕ) (w : World x)
        → ms ≤ max_delay
        → Effects IsGood 0 max_delay w (sleeping x o ms w)
    Effects-sleep o ms w h = record {
      requests = [];
      requests_sent = sym (append-nil w.sent);
      requests_bound = omega arith;
      requests_good = tt;
      waits = ms ∷ [];
      waits_slept = refl;
      waits_bound = (h, tt);
    }
