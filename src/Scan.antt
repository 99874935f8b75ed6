-- ===== src/Scan.antt =====
-- The data that the packages pass to one another: Technology of internal/fingerprint/loader.go, and
-- Match, Result and ScanResult of internal/scanner/scanner.go. The fields DNS, WHOIS, SSL and Perf of a
-- ScanResult, which only a report reads, are the record Enrichment of Enrich.
use stackly.Base.{ℕ, Option, List, Bytes}
use stackly.Base.Map.{Map}

pub record DetectionRule : Type 0 where
  pub pattern : Bytes
  pub match : Bytes
  pub confidence : ℕ
  pub name : Bytes
  pub header : Bytes

pub record Detectors : Type 0 where
  pub html : List DetectionRule
  pub headers : List DetectionRule
  pub scripts : List DetectionRule
  pub cookies : List DetectionRule
  pub url : List DetectionRule
  pub js_globals : List DetectionRule
  pub css : List DetectionRule
  pub meta : List DetectionRule

pub record Technology : Type 0 where
  pub slug : Bytes
  pub name : Bytes
  pub website : Bytes
  pub category : Bytes
  pub icon : Bytes
  pub detectors : Detectors
  pub implies : List Bytes
  pub excludes : List Bytes

pub record Match : Type 0 where
  pub type : Bytes
  pub rule : Bytes
  pub detail : Bytes

pub record Result : Type 0 where
  pub technology : Technology
  pub confidence : ℕ
  pub matches : List Match

-- `error` is the text of the error, if there is one.
pub record ScanResult : Type 0 where
  pub url : Bytes
  pub html : Bytes
  pub headers : Map (List Bytes)
  pub scripts : List Bytes
  pub css_links : List Bytes
  pub js_globals : List Bytes
  pub meta_tags : Map Bytes
  pub cookies : List Bytes
  pub results : List Result
  pub emails : List Bytes
  pub scan_duration : ℕ
  pub error : Option Bytes
