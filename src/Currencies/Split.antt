-- ===== src/Currencies/Split.antt =====
-- `split_currency_pairs` (utils/currency_utils.py).
use crypto_crawler.Prelude.{Option, List, [], ◌∷◌, ℕ}
use crypto_crawler.Enums.Currency.{Currency}
use crypto_crawler.Enums.CurrencyPair.{CurrencyPair}
use crypto_crawler.Currencies.Dict.{get_by_pair}

unfoldable pub split_table : List (CurrencyPair × (Currency × Currency))
split_table =
    (CurrencyPair.btc_to_dash, (Currency.bitcoin, Currency.dash))
    ∷ (CurrencyPair.btc_to_eth, (Currency.bitcoin, Currency.eth))
    ∷ (CurrencyPair.btc_to_ltc, (Currency.bitcoin, Currency.ltc))
    ∷ (CurrencyPair.btc_to_xrp, (Currency.bitcoin, Currency.xrp))
    ∷ (CurrencyPair.btc_to_bcc, (Currency.bitcoin, Currency.bcc))
    ∷ (CurrencyPair.btc_to_etc, (Currency.bitcoin, Currency.etc))
    ∷ (CurrencyPair.btc_to_sc, (Currency.bitcoin, Currency.sc))
    ∷ (CurrencyPair.btc_to_dgb, (Currency.bitcoin, Currency.dgb))
    ∷ (CurrencyPair.btc_to_xem, (Currency.bitcoin, Currency.xem))
    ∷ (CurrencyPair.btc_to_ardr, (Currency.bitcoin, Currency.ardr))
    ∷ (CurrencyPair.btc_to_omg, (Currency.bitcoin, Currency.omg))
    ∷ (CurrencyPair.btc_to_zec, (Currency.bitcoin, Currency.zec))
    ∷ (CurrencyPair.btc_to_rep, (Currency.bitcoin, Currency.rep))
    ∷ (CurrencyPair.btc_to_xmr, (Currency.bitcoin, Currency.xmr))
    ∷ (CurrencyPair.btc_to_doge, (Currency.bitcoin, Currency.doge))
    ∷ (CurrencyPair.btc_to_dcr, (Currency.bitcoin, Currency.dcr))
    ∷ (CurrencyPair.btc_to_neo, (Currency.bitcoin, Currency.neo))
    ∷ (CurrencyPair.btc_to_qtum, (Currency.bitcoin, Currency.qtum))
    ∷ (CurrencyPair.btc_to_eos, (Currency.bitcoin, Currency.eos))
    ∷ (CurrencyPair.btc_to_iota, (Currency.bitcoin, Currency.iota))
    ∷ (CurrencyPair.btc_to_btg, (Currency.bitcoin, Currency.btg))
    ∷ (CurrencyPair.btc_to_wtc, (Currency.bitcoin, Currency.wtc))
    ∷ (CurrencyPair.btc_to_knc, (Currency.bitcoin, Currency.knc))
    ∷ (CurrencyPair.btc_to_bat, (Currency.bitcoin, Currency.bat))
    ∷ (CurrencyPair.btc_to_zrx, (Currency.bitcoin, Currency.zrx))
    ∷ (CurrencyPair.btc_to_rdn, (Currency.bitcoin, Currency.rdn))
    ∷ (CurrencyPair.btc_to_gas, (Currency.bitcoin, Currency.gas))
    ∷ (CurrencyPair.btc_to_ada, (Currency.bitcoin, Currency.ada))
    ∷ (CurrencyPair.btc_to_rcn, (Currency.bitcoin, Currency.rcn))
    ∷ (CurrencyPair.btc_to_qsp, (Currency.bitcoin, Currency.qsp))
    ∷ (CurrencyPair.btc_to_xby, (Currency.bitcoin, Currency.xby))
    ∷ (CurrencyPair.btc_to_pac, (Currency.bitcoin, Currency.pac))
    ∷ (CurrencyPair.btc_to_rdd, (Currency.bitcoin, Currency.rdd))
    ∷ (CurrencyPair.btc_to_icx, (Currency.bitcoin, Currency.icx))
    ∷ (CurrencyPair.btc_to_wabi, (Currency.bitcoin, Currency.wabi))
    ∷ (CurrencyPair.btc_to_xlm, (Currency.bitcoin, Currency.xlm))
    ∷ (CurrencyPair.btc_to_trx, (Currency.bitcoin, Currency.trx))
    ∷ (CurrencyPair.btc_to_aion, (Currency.bitcoin, Currency.aion))
    ∷ (CurrencyPair.btc_to_itc, (Currency.bitcoin, Currency.itc))
    ∷ (CurrencyPair.btc_to_ark, (Currency.bitcoin, Currency.ark))
    ∷ (CurrencyPair.btc_to_strat, (Currency.bitcoin, Currency.strat))
    ∷ (CurrencyPair.btc_to_lsk, (Currency.bitcoin, Currency.lsk))
    ∷ (CurrencyPair.btc_to_eng, (Currency.bitcoin, Currency.eng))
    ∷ (CurrencyPair.btc_to_xvg, (Currency.bitcoin, Currency.xvg))
    ∷ (CurrencyPair.btc_to_ont, (Currency.bitcoin, Currency.ont))
    ∷ (CurrencyPair.btc_to_hsr, (Currency.bitcoin, Currency.hsr))
    ∷ (CurrencyPair.btc_to_zil, (Currency.bitcoin, Currency.zil))
    ∷ (CurrencyPair.btc_to_ven, (Currency.bitcoin, Currency.ven))
    ∷ (CurrencyPair.btc_to_elf, (Currency.bitcoin, Currency.elf))
    ∷ (CurrencyPair.btc_to_blz, (Currency.bitcoin, Currency.blz))
    ∷ (CurrencyPair.btc_to_req, (Currency.bitcoin, Currency.req))
    ∷ (CurrencyPair.btc_to_link, (Currency.bitcoin, Currency.link))
    ∷ (CurrencyPair.btc_to_nas, (Currency.bitcoin, Currency.nas))
    ∷ (CurrencyPair.btc_to_ela, (Currency.bitcoin, Currency.ela))
    ∷ (CurrencyPair.eth_to_dash, (Currency.eth, Currency.dash))
    ∷ (CurrencyPair.eth_to_ltc, (Currency.eth, Currency.ltc))
    ∷ (CurrencyPair.eth_to_xrp, (Currency.eth, Currency.xrp))
    ∷ (CurrencyPair.eth_to_bcc, (Currency.eth, Currency.bcc))
    ∷ (CurrencyPair.eth_to_etc, (Currency.eth, Currency.etc))
    ∷ (CurrencyPair.eth_to_sc, (Currency.eth, Currency.sc))
    ∷ (CurrencyPair.eth_to_dgb, (Currency.eth, Currency.dgb))
    ∷ (CurrencyPair.eth_to_xem, (Currency.eth, Currency.xem))
    ∷ (CurrencyPair.eth_to_omg, (Currency.eth, Currency.omg))
    ∷ (CurrencyPair.eth_to_zec, (Currency.eth, Currency.zec))
    ∷ (CurrencyPair.eth_to_rep, (Currency.eth, Currency.rep))
    ∷ (CurrencyPair.eth_to_xmr, (Currency.eth, Currency.xmr))
    ∷ (CurrencyPair.eth_to_neo, (Currency.eth, Currency.neo))
    ∷ (CurrencyPair.eth_to_qtum, (Currency.eth, Currency.qtum))
    ∷ (CurrencyPair.eth_to_eos, (Currency.eth, Currency.eos))
    ∷ (CurrencyPair.eth_to_iota, (Currency.eth, Currency.iota))
    ∷ (CurrencyPair.eth_to_btg, (Currency.eth, Currency.btg))
    ∷ (CurrencyPair.eth_to_wtc, (Currency.eth, Currency.wtc))
    ∷ (CurrencyPair.eth_to_knc, (Currency.eth, Currency.knc))
    ∷ (CurrencyPair.eth_to_bat, (Currency.eth, Currency.bat))
    ∷ (CurrencyPair.eth_to_zrx, (Currency.eth, Currency.zrx))
    ∷ (CurrencyPair.eth_to_rdn, (Currency.eth, Currency.rdn))
    ∷ (CurrencyPair.eth_to_gas, (Currency.eth, Currency.gas))
    ∷ (CurrencyPair.eth_to_ada, (Currency.eth, Currency.ada))
    ∷ (CurrencyPair.eth_to_rcn, (Currency.eth, Currency.rcn))
    ∷ (CurrencyPair.eth_to_qsp, (Currency.eth, Currency.qsp))
    ∷ (CurrencyPair.eth_to_xby, (Currency.eth, Currency.xby))
    ∷ (CurrencyPair.eth_to_pac, (Currency.eth, Currency.pac))
    ∷ (CurrencyPair.eth_to_rdd, (Currency.eth, Currency.rdd))
    ∷ (CurrencyPair.eth_to_icx, (Currency.eth, Currency.icx))
    ∷ (CurrencyPair.eth_to_wabi, (Currency.eth, Currency.wabi))
    ∷ (CurrencyPair.eth_to_xlm, (Currency.eth, Currency.xlm))
    ∷ (CurrencyPair.eth_to_trx, (Currency.eth, Currency.trx))
    ∷ (CurrencyPair.eth_to_aion, (Currency.eth, Currency.aion))
    ∷ (CurrencyPair.eth_to_itc, (Currency.eth, Currency.itc))
    ∷ (CurrencyPair.eth_to_ark, (Currency.eth, Currency.ark))
    ∷ (CurrencyPair.eth_to_strat, (Currency.eth, Currency.strat))
    ∷ (CurrencyPair.eth_to_lsk, (Currency.eth, Currency.lsk))
    ∷ (CurrencyPair.eth_to_eng, (Currency.eth, Currency.eng))
    ∷ (CurrencyPair.eth_to_xvg, (Currency.eth, Currency.xvg))
    ∷ (CurrencyPair.eth_to_ont, (Currency.eth, Currency.ont))
    ∷ (CurrencyPair.eth_to_hsr, (Currency.eth, Currency.hsr))
    ∷ (CurrencyPair.eth_to_zil, (Currency.eth, Currency.zil))
    ∷ (CurrencyPair.eth_to_ven, (Currency.eth, Currency.ven))
    ∷ (CurrencyPair.eth_to_elf, (Currency.eth, Currency.elf))
    ∷ (CurrencyPair.eth_to_blz, (Currency.eth, Currency.blz))
    ∷ (CurrencyPair.eth_to_req, (Currency.eth, Currency.req))
    ∷ (CurrencyPair.eth_to_link, (Currency.eth, Currency.link))
    ∷ (CurrencyPair.eth_to_nas, (Currency.eth, Currency.nas))
    ∷ (CurrencyPair.eth_to_ela, (Currency.eth, Currency.ela))
    ∷ (CurrencyPair.usd_to_dash, (Currency.usd, Currency.dash))
    ∷ (CurrencyPair.usd_to_btc, (Currency.usd, Currency.bitcoin))
    ∷ (CurrencyPair.usd_to_ltc, (Currency.usd, Currency.ltc))
    ∷ (CurrencyPair.usd_to_xrp, (Currency.usd, Currency.xrp))
    ∷ (CurrencyPair.usd_to_bcc, (Currency.usd, Currency.bcc))
    ∷ (CurrencyPair.usd_to_etc, (Currency.usd, Currency.etc))
    ∷ (CurrencyPair.usd_to_eth, (Currency.usd, Currency.eth))
    ∷ (CurrencyPair.usd_to_zec, (Currency.usd, Currency.zec))
    ∷ (CurrencyPair.usd_to_rep, (Currency.usd, Currency.rep))
    ∷ (CurrencyPair.usd_to_xmr, (Currency.usd, Currency.xmr))
    ∷ (CurrencyPair.usdt_to_dash, (Currency.usdt, Currency.dash))
    ∷ (CurrencyPair.usdt_to_btc, (Currency.usdt, Currency.bitcoin))
    ∷ (CurrencyPair.usdt_to_ltc, (Currency.usdt, Currency.ltc))
    ∷ (CurrencyPair.usdt_to_xrp, (Currency.usdt, Currency.xrp))
    ∷ (CurrencyPair.usdt_to_bcc, (Currency.usdt, Currency.bcc))
    ∷ (CurrencyPair.usdt_to_etc, (Currency.usdt, Currency.etc))
    ∷ (CurrencyPair.usdt_to_eth, (Currency.usdt, Currency.eth))
    ∷ (CurrencyPair.usdt_to_zec, (Currency.usdt, Currency.zec))
    ∷ (CurrencyPair.usdt_to_rep, (Currency.usdt, Currency.rep))
    ∷ (CurrencyPair.usdt_to_xmr, (Currency.usdt, Currency.xmr))
    ∷ (CurrencyPair.usdt_to_neo, (Currency.usdt, Currency.neo))
    ∷ (CurrencyPair.usdt_to_qtum, (Currency.usdt, Currency.qtum))
    ∷ (CurrencyPair.usdt_to_eos, (Currency.usdt, Currency.eos))
    ∷ (CurrencyPair.usdt_to_iota, (Currency.usdt, Currency.iota))
    ∷ (CurrencyPair.usdt_to_btg, (Currency.usdt, Currency.btg))
    ∷ (CurrencyPair.usdt_to_wtc, (Currency.usdt, Currency.wtc))
    ∷ (CurrencyPair.usdt_to_knc, (Currency.usdt, Currency.knc))
    ∷ (CurrencyPair.usdt_to_bat, (Currency.usdt, Currency.bat))
    ∷ (CurrencyPair.usdt_to_zrx, (Currency.usdt, Currency.zrx))
    ∷ (CurrencyPair.usdt_to_rdn, (Currency.usdt, Currency.rdn))
    ∷ (CurrencyPair.usdt_to_gas, (Currency.usdt, Currency.gas))
    ∷ (CurrencyPair.usdt_to_ada, (Currency.usdt, Currency.ada))
    ∷ (CurrencyPair.usdt_to_rcn, (Currency.usdt, Currency.rcn))
    ∷ (CurrencyPair.usdt_to_qsp, (Currency.usdt, Currency.qsp))
    ∷ (CurrencyPair.usdt_to_xby, (Currency.usdt, Currency.xby))
    ∷ (CurrencyPair.usdt_to_pac, (Currency.usdt, Currency.pac))
    ∷ (CurrencyPair.usdt_to_rdd, (Currency.usdt, Currency.rdd))
    ∷ (CurrencyPair.usdt_to_icx, (Currency.usdt, Currency.icx))
    ∷ (CurrencyPair.usdt_to_wabi, (Currency.usdt, Currency.wabi))
    ∷ (CurrencyPair.usdt_to_xlm, (Currency.usdt, Currency.xlm))
    ∷ (CurrencyPair.usdt_to_trx, (Currency.usdt, Currency.trx))
    ∷ (CurrencyPair.usdt_to_aion, (Currency.usdt, Currency.aion))
    ∷ (CurrencyPair.usdt_to_itc, (Currency.usdt, Currency.itc))
    ∷ (CurrencyPair.usdt_to_xvg, (Currency.usdt, Currency.xvg))
    ∷ (CurrencyPair.usdt_to_hsr, (Currency.usdt, Currency.hsr))
    ∷ (CurrencyPair.usdt_to_zil, (Currency.usdt, Currency.zil))
    ∷ (CurrencyPair.usdt_to_ven, (Currency.usdt, Currency.ven))
    ∷ (CurrencyPair.usdt_to_elf, (Currency.usdt, Currency.elf))
    ∷ (CurrencyPair.usd_to_usdt, (Currency.usdt, Currency.usd))
    ∷ (CurrencyPair.usdt_to_nas, (Currency.usdt, Currency.nas))
    ∷ (CurrencyPair.usdt_to_ela, (Currency.usdt, Currency.ela))
    ∷ []

-- `split_currency_pairs`
unfoldable pub split_currency_pairs : ℕ → Option (Currency × Currency)
unfolding split_table
split_currency_pairs pair_id = get_by_pair split_table pair_id
